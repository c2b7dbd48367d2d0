-- ===== src/Net/Progress.antt =====
-- `on_write` goes on to the next buffered line.
use solidbits.Prelude.{ℕ, ◌+◌, ◌≡◌, true, false, some, [], ◌∷◌, take, drop, arith}
use solidbits.Net.{Conn, queue_work, memchr, new_work, on_write}
use solidbits.Net.Framing.{dispatch_first, try_dispatch_next_lem}

-- The connection once its first buffered line has gone to the pool.
abbrev taken : Conn → ℕ → Conn
taken c llen = record c { busy = true; rbuf = drop (llen + 1) c.rbuf }

-- When a reply has been written and memory lasts, the next complete line that is buffered goes to the
-- pool at once, and it alone.
pub on_write_continues :
    (c : Conn) (llen : ℕ)
    → c.closing ≡ false
    → memchr b'\n' c.rbuf ≡ some llen
    → on_write true true c ≡ (taken c llen, queue_work (new_work (take llen c.rbuf)) ∷ [])
unfolding on_write dispatch_first
on_write_continues c llen open_handle found =
    rw (try_dispatch_next_lem true (record c { busy = false }) open_handle, open_handle, found)
      (ground arith)
