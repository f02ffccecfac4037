-- ===== src/Stack/Tests.antt =====
-- The stack's theorems at inputs that meet their hypotheses.
use lidas.Base.{◌≡◌, some, [], ◌∷◌, arith, length, fault, ◌>>=◌, success, Returns}
use lidas.Stack.{Stack, stack_push, stack_pop, contents, push-contents, push-full, pop-push}

abbrev two : Stack
two = record { slots = 5 ∷ 6 ∷ 0 ∷ []; cnt = 2 }

push-contents_test :
    Returns
      (λ r.
        (r.0 ≡ success)
        × (h' : Stack) × (r.1 ≡ some h')
        × (contents h' ≡ 7 ∷ contents two)
        × (length h'.slots ≡ 3))
      (stack_push (some two) 7)
push-contents_test = push-contents two 7 (omega arith)

push-full_test : stack_push (some (record two { cnt = 3 })) 7 ≡ fault
push-full_test = push-full (record two { cnt = 3 }) 7 (omega arith)

pop-push_example :
    Returns
      (λ r. (r.0 ≡ 7) × (h' : Stack) × (r.1 ≡ some h') × (contents h' ≡ contents two))
      (do (s, p) ← stack_push (some two) 7; stack_pop p)
pop-push_example = pop-push two 7 (omega arith)
