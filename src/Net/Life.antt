-- ===== src/Net/Life.antt =====
-- src/net.c: the blocks of memory over the whole life of a connection, from on_connection to on_close.
use solidbits.Prelude.{
  ℕ, ◌≡◌, refl, sym, ap, ◌∙◌, Bool, true, false, not, ◌&&◌, Option, some, List, [], ◌∷◌, ◌++◌, ◌==◌,
  if◌then◌else◌, inl, inr, Bool-cases, arith,
}
use solidbits.Net.{
  Conn, WorkReq, Effect, queue_work, write, close, Input, on_read, after_work_cb, on_write,
}
use solidbits.Net.Memory.{Attempt, Outcome, Heap, ◌>>=◌, on_close, open_handle, on_connection}
use solidbits.Net.Lifetime.{
  Memory, all_made, alloc_cb, on_read_blocks, after_work_blocks, on_write_blocks,
}
use solidbits.Net.Live.{live, on_read_lem, after_work_lem, on_write_lem, on_close_lem}
use solidbits.Net.Session.{
  Session, idle, working, writing, start, after, perform, input_bytes, Step, reads, finishes, wrote,
  Reach, begin, next,
}
use solidbits.Net.Invariant.{Inv, Reach-Inv, in_flight}

-- A step of the session with what it meets in memory.
pub data Call (s : Session) : Session → Type 0 where
  read_call :
      (m : Memory) (i : Input)
      → s.closes ≡ 0
      → Call s (
          after
            (record s { received = s.received ++ input_bytes i })
            (on_read m.realloc (all_made m) s.conn i))
  work_call :
      (status sent : Bool) (w : WorkReq)
      → s.phase ≡ working w.line
      → Call s (
          after
            (record s { phase = idle; answered = s.answered ++ w.line ∷ [] })
            (after_work_cb status sent s.conn w))
  write_call :
      (status : Bool) (m : Memory) (line : List ℕ)
      → s.phase ≡ writing line
      → Call s (after (record s { phase = idle }) (on_write status (all_made m) s.conn))

-- The calls that libuv has made for a connection, the last one outermost.
pub data Life : Session → Type 0 where
  accepted : Life start
  calls : {s t : Session} → Life s → Call s t → Life t

abbrev call_blocks : {s t : Session} → Call s t → Heap → Option Heap
call_blocks {s} (read_call m i e) heap = on_read_blocks m s.conn i (alloc_cb m.base heap).1
call_blocks {s} (work_call status sent w e) heap = after_work_blocks status sent s.conn w heap
call_blocks {s} (write_call status m line e) heap = on_write_blocks status m s.conn heap

abbrev all_good : Attempt
all_good = record {
  status = true;
  calloc = true;
  malloc = true;
  tcp_init = true;
  accept = true;
  read_start = true;
}

-- The heap after those calls, from the empty one on which `on_connection` is called.
abbrev pub life_blocks : {s : Session} → Life s → Option Heap
life_blocks accepted = on_connection all_good [] >>= λ (r : Outcome × Heap). some r.1
life_blocks (calls l k) = life_blocks l >>= call_blocks k

-- The close callback of libuv, which runs once the handle has been closed.
abbrev pub close_callback : Session → Heap → Option Heap
close_callback s heap = if s.closes == 1 then on_close heap else some heap

Call-Step : {s t : Session} → Call s t → Step s t
Call-Step (read_call m i e) = reads m.realloc (all_made m) i e
Call-Step (work_call status sent w e) = finishes status sent w e
Call-Step (write_call status m line e) = wrote status (all_made m) line e

Life-Reach : {s : Session} → Life s → Reach s
Life-Reach accepted = begin
Life-Reach (calls l k) = next (Life-Reach l) (Call-Step k)

perform_conn : (s : Session) (es : List Effect) → (perform s es).conn ≡ s.conn
perform_conn s [] = refl
perform_conn s (queue_work w ∷ es) =
    perform_conn (record s { phase = working w.line; dispatched = s.dispatched ++ w.line ∷ [] }) es
perform_conn s (write w ∷ es) = perform_conn (record s { phase = writing w.line }) es
perform_conn s (close ∷ es) = perform_conn (record s { closes = ℕ.suc s.closes }) es

after-live : (s : Session) (r : Conn × List Effect) → some (live r.0) ≡ some (live (after s r).conn)
after-live s (c, es) = ap (λ d. some (live d)) (sym (perform_conn (record s { conn = c }) es))

call_lem :
    {s t : Session} → Inv s → (k : Call s t) → call_blocks k (live s.conn) ≡ some (live t.conn)
call_lem {s} v (read_call m i e) =
    on_read_lem m s.conn i
    ∙ after-live (record s { received = s.received ++ input_bytes i })
        (on_read m.realloc (all_made m) s.conn i)
call_lem {s} v (work_call status sent w e) =
    after_work_lem status sent s.conn w (v.flight ∙ ap in_flight e)
    ∙ after-live (record s { phase = idle; answered = s.answered ++ w.line ∷ [] })
        (after_work_cb status sent s.conn w)
call_lem {s} v (write_call status m line e) =
    on_write_lem status m s.conn (v.flight ∙ ap in_flight e)
    ∙ after-live (record s { phase = idle }) (on_write status (all_made m) s.conn)

life_lem : {s : Session} → (l : Life s) → life_blocks l ≡ some (live s.conn)
unfolding on_connection open_handle
life_lem accepted = refl
life_lem (calls l k) = rw (life_lem l) (call_lem (Reach-Inv (Life-Reach l)) k)

idle_when_closed : {s : Session} → Inv s → (s.closes == 1) ≡ true → s.conn.busy ≡ false
idle_when_closed {s} v e = elim (Bool-cases s.conn.busy) [
  | inr e ↦ e
  | inl busy ↦
      let closed : s.closes ≡ (if s.conn.closing && not s.conn.busy then 1 else 0) = v.closed in
      ground arith
]

closing_lem :
    {s : Session}
    → Inv s
    → close_callback s (live s.conn) ≡ some (if s.closes == 1 then [] else live s.conn)
closing_lem {s} v = elim (Bool-cases (s.closes == 1)) [
  | inl e ↦ rw e (on_close_lem s.conn (idle_when_closed v e))
  | inr e ↦ rw e refl
]

-- After any calls of the handlers that libuv may make for a connection since `on_connection` accepted
-- it, in any order it may make them, whatever arrives and whichever allocations fail (the buffer of
-- `alloc_cb` among them), no block was freed that was not live, and the live blocks are the connection
-- and its buffer and, exactly while `busy` is set, the request, its line and its response. If the handle
-- has been closed, `on_close` then frees all that there are; so nothing leaks.
pub life_frees :
    {s : Session}
    → (l : Life s)
    → (life_blocks l ≡ some (live s.conn))
      × ((life_blocks l >>= close_callback s) ≡ some (if s.closes == 1 then [] else live s.conn))
life_frees l = (life_lem l, rw (life_lem l) (closing_lem (Reach-Inv (Life-Reach l))))
