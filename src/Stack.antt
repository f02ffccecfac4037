-- ===== src/Stack.antt =====
-- src/stack.c: a stack of addresses that src/modules/rbtree.c fills with keys to delete. The place of
-- a caller's `struct stack_t *` that is NULL is `none`. `data` is the block that `calloc` gave, and an
-- access outside it is a fault.
mod Tests
use native.Mathlib.Numerals.{add-one}
use lidas.Base.{
  ◌>>=◌, ℕ, zero, suc, ◌+◌, ◌-◌, ◌≤◌, ◌<◌, ◌≡◌, refl, ap₂, Option, none, some, List, [], ◌∷◌, arith,
  ltb, ◌==◌, if◌then◌else◌, lt→ltb, le→ltb, ne→==, length, get_elem?, get_or, set, replicate,
  length-set, get_or-set_self, get_or-set_ne, get_elem?-set_self, Run, ok, fault, or_fault, Status,
  success, failure, Returns, returns,
}

-- `struct stack_t`; its field `data` is `slots` here
pub record Stack : Type 0 where
  pub slots : List ℕ
  pub cnt : ℕ

-- `stack_init`
stack_init : (max : ℕ) → Stack
stack_init max = record { slots = replicate max 0; cnt = 0 }

-- `stack_push`
unfoldable pub stack_push : Option Stack → ℕ → Run (Status × Option Stack)
stack_push none d = ok (failure, none)
stack_push (some h) d =
    if ltb h.cnt (length h.slots)
    then ok (success, some (record { slots = set h.slots h.cnt d; cnt = h.cnt + 1 }))
    else fault

-- `stack_pop`
unfoldable pub stack_pop : Option Stack → Run (ℕ × Option Stack)
stack_pop none = ok (0, none)
stack_pop (some h) = if h.cnt == 0 then ok (0, some h) else do
  d ← or_fault (get_elem? h.slots (h.cnt - 1))
  ok (d, some (record h { cnt = h.cnt - 1 }))

-- the addresses on the stack, the newest first
contents_of : List ℕ → ℕ → List ℕ
contents_of slots zero = []
contents_of slots (suc n) = get_or slots n 0 ∷ contents_of slots n

pub contents : Stack → List ℕ
unfolding contents_of
contents h = contents_of h.slots h.cnt

contents_of-set :
    (slots : List ℕ) (n i d : ℕ) → n ≤ i → contents_of (set slots i d) n ≡ contents_of slots n
unfolding contents_of
contents_of-set slots zero i d h = refl
contents_of-set slots (suc n) i d h =
    ap₂ ◌∷◌ (get_or-set_ne slots i n d 0 (omega arith)) (contents_of-set slots n i d (omega arith))

pushed : Stack → ℕ → Stack
pushed h d = record { slots = set h.slots h.cnt d; cnt = h.cnt + 1 }

pushed-contents :
    (h : Stack) (d : ℕ) → h.cnt < length h.slots → contents (pushed h d) ≡ d ∷ contents h
unfolding contents pushed contents_of
pushed-contents h d room = rw add-one (
    ap₂ ◌∷◌ (get_or-set_self h.slots h.cnt d 0 room)
      (contents_of-set h.slots h.cnt h.cnt d (omega arith)))

push-ok :
    (h : Stack) (d : ℕ)
    → h.cnt < length h.slots
    → stack_push (some h) d ≡ ok (success, some (pushed h d))
unfolding stack_push pushed
push-ok h d room = rw (lt→ltb h.cnt (length h.slots) room)

-- `stack_push` on a stack with room puts the address on top of those there.
pub push-contents :
    (h : Stack) (d : ℕ)
    → h.cnt < length h.slots
    → Returns
        (λ r.
          (r.0 ≡ success)
          × (h' : Stack) × (r.1 ≡ some h')
          × (contents h' ≡ d ∷ contents h)
          × (length h'.slots ≡ length h.slots))
        (stack_push (some h) d)
unfolding pushed
push-contents h d room =
    rw (push-ok h d room)
      (returns (refl, pushed h d, refl, pushed-contents h d room, length-set h.slots h.cnt d))

-- `stack_push` on a full stack writes outside its block: there is no test for that.
pub push-full : (h : Stack) (d : ℕ) → length h.slots ≤ h.cnt → stack_push (some h) d ≡ fault
unfolding stack_push
push-full h d full = rw (le→ltb h.cnt (length h.slots) full)

-- `stack_pop` after `stack_push` on a stack with room gives back the address, and a stack with the
-- contents that there were before.
pub pop-push :
    (h : Stack) (d : ℕ)
    → h.cnt < length h.slots
    → Returns
        (λ r. (r.0 ≡ d) × (h' : Stack) × (r.1 ≡ some h') × (contents h' ≡ contents h))
        (do (s, p) ← stack_push (some h) d; stack_pop p)
unfolding stack_pop pushed contents
pop-push h d room =
    let top : h.cnt + 1 - 1 ≡ h.cnt = omega arith in
    let held : length (set h.slots h.cnt d) ≡ length h.slots = length-set h.slots h.cnt d in
    rw
      (
        push-ok h d room,
        ne→== (h.cnt + 1) 0 (omega arith),
        top,
        get_elem?-set_self h.slots h.cnt d room,
      )
      (returns (
        refl,
        record { slots = set h.slots h.cnt d; cnt = h.cnt },
        refl,
        contents_of-set h.slots h.cnt h.cnt d (omega arith),
      ))
