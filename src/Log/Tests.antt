-- ===== src/Log/Tests.antt =====
-- The log of a client with one warning
use lidas.Base.{◌+◌, ◌≡◌, refl, some, [], ◌∷◌, arith, length, ok, success, Returns}
use lidas.Text.Literals.{codes}
use lidas.Memory.Pool.{Page, mem_pool_alloc}
use lidas.Log.{
  BufLog, lock, unlock, write, farewell, client_text, client_room, warning_text, warning_room,
  ported_text, ported_room, err_log, buf_log_destroy,
}
use lidas.Log.Texts.{texts-overrun}
use lidas.Log.Written.{NoUnlock, buf_log_destroy-writes, buf_log_destroy-keeps_lock}

abbrev page : Page
page = record { at = 4096; start = 4136; end_ = 8192; extra = []; words = λ a. 0 }

abbrev started : BufLog
started = record { content = codes "Client"; entries = [] }

abbrev warned : BufLog
warned = record { content = codes "Client"; entries = codes "Waring: late\n" ∷ [] }

err_log_test :
    err_log (codes "late") (some started) (page ∷ [])
    ≡ ok (some warned, record page { start = 4136 + 13 + 24 } ∷ [])
unfolding err_log mem_pool_alloc
err_log_test = refl

texts-overrun_test :
    (length (client_text (codes "now") (codes "here")) + 1
      ≡ client_room (codes "now") (codes "here") + 1)
    × (length (warning_text (codes "now")) + 1 ≡ warning_room (codes "now") + 1)
    × (length (ported_text (codes "now") (codes "here")) + 1
        ≡ ported_room (codes "now") (codes "here") + 18)
texts-overrun_test = texts-overrun (codes "now") (codes "here")

buf_log_destroy-writes_test :
    buf_log_destroy success (success ∷ success ∷ []) (some warned)
    ≡ ok (
        lock
        ∷ write (codes "Client")
        ∷ write (codes "Waring: late\n")
        ∷ write farewell
        ∷ unlock
        ∷ [])
buf_log_destroy-writes_test = buf_log_destroy-writes warned

buf_log_destroy-keeps_lock_test :
    Returns NoUnlock (buf_log_destroy success (success ∷ []) (some warned))
buf_log_destroy-keeps_lock_test = buf_log_destroy-keeps_lock warned 1 (omega arith)
