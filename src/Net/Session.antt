-- ===== src/Net/Session.antt =====
-- One connection as libuv drives it: what is in flight, what has come in, and what has been asked of
-- libuv. The thread pool answers the one request in flight at some later step.
use solidbits.Prelude.{ℕ, ◌≡◌, Bool, List, [], ◌∷◌, ◌++◌}
use solidbits.Net.{
  Conn, WorkReq, Effect, queue_work, write, close, Input, read_error, chunk, new_conn, on_read,
  after_work_cb, on_write,
}

-- No request, a line on a worker thread, or a response being written.
pub data Phase : Type 0 where
  idle : Phase
  working : List ℕ → Phase
  writing : List ℕ → Phase

-- `received` holds every byte that libuv delivered; `dispatched` the lines handed to the pool,
-- `answered` those of them that are done with, both oldest first. `closes` counts the `uv_close` calls.
pub record Session : Type 0 where
  pub conn : Conn
  pub phase : Phase
  pub received : List ℕ
  pub dispatched : List (List ℕ)
  pub answered : List (List ℕ)
  pub closes : ℕ

abbrev pub input_bytes : Input → List ℕ
input_bytes read_error = []
input_bytes (chunk bs) = bs

abbrev pub perform : Session → List Effect → Session
perform s [] = s
perform s (queue_work w ∷ es) =
    perform (record s { phase = working w.line; dispatched = s.dispatched ++ w.line ∷ [] }) es
perform s (write w ∷ es) = perform (record s { phase = writing w.line }) es
perform s (close ∷ es) = perform (record s { closes = ℕ.suc s.closes }) es

-- The handler's result on the session that it was called in.
abbrev pub after : Session → Conn × List Effect → Session
after s (c, es) = perform (record s { conn = c }) es

abbrev pub start : Session
start = record {
  conn = new_conn;
  phase = idle;
  received = [];
  dispatched = [];
  answered = [];
  closes = 0;
}

-- What may happen next. libuv reads from an open handle only; a worker finishes the line it was given,
-- with any response; a write that was started ends, well or not.
pub data Step (s : Session) : Session → Type 0 where
  reads :
      (realloc mem : Bool) (i : Input)
      → s.closes ≡ 0
      → Step s (
          after
            (record s { received = s.received ++ input_bytes i })
            (on_read realloc mem s.conn i))
  finishes :
      (status sent : Bool) (w : WorkReq)
      → s.phase ≡ working w.line
      → Step s (
          after
            (record s { phase = idle; answered = s.answered ++ w.line ∷ [] })
            (after_work_cb status sent s.conn w))
  wrote :
      (status mem : Bool) (line : List ℕ)
      → s.phase ≡ writing line
      → Step s (after (record s { phase = idle }) (on_write status mem s.conn))

pub data Reach : Session → Type 0 where
  begin : Reach start
  next : {s t : Session} → Reach s → Step s t → Reach t
