-- ===== src/Net/Invariant.antt =====
-- What holds of a connection at every moment, whatever libuv, the memory and the workers do.
mod Defs
mod Dispatch
mod Close
mod Read
mod Finish
pub use Defs.{in_flight, current, Framed, buffered_while, Inv}
use Defs.{start-Inv}
use Read.{on_read-Inv}
use Finish.{finishes-Inv, wrote-Inv}
use solidbits.Prelude.{
  ℕ, zero, suc, ◌+◌, ◌≤◌, ◌<◌, ◌≡◌, refl, sym, ap, ◌∙◌, Bool, true, false, not, ◌&&◌, ◌||◌, Option,
  none, some, List, [], ◌∷◌, ◌++◌, append_assoc, append-nil, take, drop, length, length-drop,
  length-append, ltb, ◌==◌, if◌then◌else◌, inl, inr, Bool-cases, Option-cases, arith,
}
use solidbits.Net.{
  Conn, WorkReq, Effect, queue_work, write, close, Input, read_error, chunk, new_conn, on_read,
  after_work_cb, on_write, maybe_close, close_down, append_and_dispatch, rbuf_max_cap, double_until,
  new_work, memchr,
}
use solidbits.Net.Grow.{Grown, double_until_lem}
use solidbits.Net.Framing.{
  frames, frames-snoc, IsLine, AreLines, AreLines-snoc, FirstLine, memchr-FirstLine, dispatch_first,
  dispatch_loop_lem, try_dispatch_next_lem,
}
use solidbits.Net.Session.{
  Phase, idle, working, writing, Session, perform, after, start, input_bytes, Step, reads, finishes,
  wrote, Reach, begin, next,
}

-- Whatever the peer sends, whenever workers and writes end and whichever allocations fail: the handle
-- is closed at most once, exactly when the connection is closing with no request in flight; one request
-- is in flight exactly when `busy` is set; the buffer stays within 64 KiB; the lines handed to the pool
-- are the first lines of what was received, in order and whole, and the pool has answered all of them
-- but the one that it is at.
pub Reach-Inv : {s : Session} → Reach s → Inv s
Reach-Inv begin = start-Inv
Reach-Inv (next {s} r (reads realloc mem i e)) = on_read-Inv s realloc mem i e (Reach-Inv r)
Reach-Inv (next {s} r (finishes status sent w p)) = finishes-Inv s status sent w p (Reach-Inv r)
Reach-Inv (next {s} r (wrote status mem line p)) = wrote-Inv s status mem line p (Reach-Inv r)
