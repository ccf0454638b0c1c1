-- ===== src/Ring/Quiet.antt =====
-- Reads of the ring of pkg/util/ringbuffer.go while nothing is written.
use liveforge.Base.{◌<◌, ◌≡◌, ◌∙◌, List, [], ◌∷◌, ◌++◌, length, append-nil}
use liveforge.Ring.{RingBuffer, RingReader, write_all, try_read_result}
use liveforge.Ring.History.{Holds, accepted, accepted-empty}
use liveforge.Ring.Read.{reply, try_read_result_lem}

module _ {ℓ} {A : Type ℓ} (h : List A) (r : RingReader) (rb : RingBuffer A) (v : Holds h rb) where
  quiet :
      (ws later : List A)
      → ws ++ later ≡ []
      → reply (h ++ accepted rb ws) rb.size r.read_cursor r.closed (write_all ws rb)
        ≡ reply h rb.size r.read_cursor r.closed rb
  unfolding write_all
  quiet [] later e = rw (accepted-empty rb, append-nil)
  quiet (x ∷ ws) later e = cc e

  pub try_read_quiet :
      r.read_cursor < length h → try_read_result [] r rb ≡ reply h rb.size r.read_cursor r.closed rb
  try_read_quiet lt =
      let (ws, later, p, e) = try_read_result_lem [] h r rb v lt in p ∙ quiet ws later e
