-- ===== src/ReadEvent/Silent.antt =====
-- What `read_event` of src/read_event.c sends to the client before it returns: nothing
use lidas.Base.{
  ℕ, ◌≡◌, refl, Bool, Option, none, some, List, [], ◌==◌, inl, inr, Bool-cases, Status, IfOk,
  IfOk-ok, IfOk-bind, IfOk-fault,
}
use lidas.Http.Hash.{Table, Stale}
use lidas.Http.Parser.{Request, http_parser}
use lidas.Memory.Pool.{Page}
use lidas.ReadEvent.{ReadResult, get_content_len}
use lidas.ReadEvent.Body.{write_to_stream-overflows}
use lidas.ReadEvent.Request.{head_siz, read_head, place_head, read_body, read_event}

read_body-silent :
    (fd : ℕ) (opened : Bool) (waits : List Status) (later : List ReadResult) (pool : List Page)
    (parsed : Option Request)
    → IfOk (λ (r, errors, pool'). errors ≡ []) (read_body fd opened waits later pool parsed)
unfolding read_body
read_body-silent fd opened waits later pool none = IfOk-ok refl
read_body-silent fd opened waits later pool (some p) =
    IfOk-bind (get_content_len p.list p.offset) _ (λ size. elim (Bool-cases (size == 0)) [
      | inl no_body ↦ rw no_body (IfOk-ok refl)
      | inr body ↦ rw (body, write_to_stream-overflows fd opened waits later size) IfOk-fault
    ])

-- A request with a body does not come out of `read_event`, since `write_to_stream` overflows its array;
-- so no error page has been sent for one that does.
pub read_event-silent :
    (reads : List ReadResult) (fd : ℕ) (buffer behind : List ℕ) (left : Stale (List ℕ))
    (list : Table (List ℕ)) (opened : Bool) (waits : List Status) (pool : List Page)
    → IfOk
        (λ (r, errors, pool'). errors ≡ [])
        (read_event reads fd buffer behind left list opened waits pool)
unfolding read_event
read_event-silent reads fd buffer behind left list opened waits pool =
    IfOk-bind (read_head reads 0 head_siz buffer) _ (λ (buf_siz, filled, rest, later).
      IfOk-bind (place_head buf_siz filled behind pool) _ (λ (head, pool').
        IfOk-bind (http_parser left list head) _ (read_body-silent fd opened waits later pool')))
