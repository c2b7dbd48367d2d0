-- ===== src/Net/Live.antt =====
-- src/net.c: the blocks of a connection, and that each handler leaves them as they should be.
use solidbits.Prelude.{
  ℕ, zero, suc, ◌+◌, ◌≡◌, refl, ap, ◌∙◌, Bool, true, false, not, ◌&&◌, ◌||◌, some, List, [], ◌∷◌,
  ◌++◌, take, drop, length, ltb, ◌==◌, if◌then◌else◌, inl, inr, Bool-cases, Option-cases, arith,
}
use solidbits.Net.{
  Conn, WorkReq, Effect, Input, read_error, chunk, rbuf_max_cap, double_until, memchr,
  dispatch_line, dispatch_loop, append_and_dispatch, on_read, try_dispatch_next, after_work_cb,
  on_write, maybe_close, close_down,
}
use solidbits.Net.Memory.{
  conn_block, rbuf_block, work_block, line_block, resp_block, Heap, free, new_request, free_request,
  on_close,
}
use solidbits.Net.Lifetime.{
  Memory, all_made, alloc_cb, free_base, request, loop_blocks, append_blocks, on_read_blocks,
  next_blocks, after_work_blocks, on_write_blocks,
}

-- The two of the connection, and the three of the request that is in flight.
abbrev pub live : Conn → Heap
live c =
    if c.busy
    then resp_block ∷ line_block ∷ work_block ∷ rbuf_block ∷ conn_block ∷ []
    else rbuf_block ∷ conn_block ∷ []

new_request_lem :
    (x y z : Bool) (heap : Heap)
    → new_request x y z heap
      ≡ some
          (x && y && z, if x && y && z then resp_block ∷ line_block ∷ work_block ∷ heap else heap)
unfolding new_request
new_request_lem false y z heap = refl
new_request_lem true false z heap = refl
new_request_lem true true false heap = refl
new_request_lem true true true heap = refl

dispatched :
    (made : Bool) (c : Conn) (line : List ℕ)
    → c.busy ≡ false
    → (if made then resp_block ∷ line_block ∷ work_block ∷ live c else live c)
      ≡ live (dispatch_line made c line).0
unfolding dispatch_line
dispatched true c line idle = rw idle refl
dispatched false c line idle = refl

request_lem :
    (m : Memory) (c : Conn) (line : List ℕ)
    → c.busy ≡ false
    → request m (live c) ≡ some (all_made m, live (dispatch_line (all_made m) c line).0)
unfolding request
request_lem m c line idle =
    new_request_lem m.calloc m.malloc_line m.malloc_resp (live c)
    ∙ ap (λ h. some (all_made m, h)) (dispatched (all_made m) c line idle)

loop_lem :
    (fuel : ℕ) (m : Memory) (c : Conn) (scan : ℕ) (out : List Effect)
    → loop_blocks fuel m c scan (live c)
      ≡ some (live (dispatch_loop fuel (all_made m) c scan out).0)
unfolding loop_blocks dispatch_loop
loop_lem zero m c scan out = refl
loop_lem (suc fuel) m c scan out = elim (Bool-cases (c.busy || c.closing)) [
  | inl stops ↦ rw stops refl
  | inr goes ↦
      let idle : c.busy ≡ false = ground arith in
      elim (Option-cases (memchr b'\n' (drop scan c.rbuf))) [
        | inl e ↦ rw (goes, e) refl
        | inr (llen, e) ↦
            rw (goes, e, request_lem m c (take llen (drop scan c.rbuf)) idle)
              (loop_lem fuel m (dispatch_line (all_made m) c (take llen (drop scan c.rbuf))).0
                (scan + (llen + 1)) _)
      ]
]

free_base_lem : (base : Bool) (heap : Heap) → free_base base (alloc_cb base heap).1 ≡ some heap
unfolding free_base alloc_cb free
free_base_lem true heap = refl
free_base_lem false heap = refl

append_lem :
    (m : Memory) (c : Conn) (bs : List ℕ)
    → append_blocks m c bs (alloc_cb m.base (live c)).1
      ≡ some (live (append_and_dispatch (all_made m) c bs).0)
unfolding append_blocks append_and_dispatch
append_lem m c bs =
    rw (free_base_lem m.base (live c))
      (loop_lem (suc (length (c.rbuf ++ bs))) m (record c { rbuf = c.rbuf ++ bs }) 0 [])

pub on_read_lem :
    (m : Memory) (c : Conn) (i : Input)
    → on_read_blocks m c i (alloc_cb m.base (live c)).1
      ≡ some (live (on_read m.realloc (all_made m) c i).0)
unfolding on_read_blocks on_read close_down maybe_close
on_read_lem m c read_error = free_base_lem m.base (live c)
on_read_lem m c (chunk []) = free_base_lem m.base (live c)
on_read_lem m c (chunk (b ∷ bs)) =
    let need = length c.rbuf + length (b ∷ bs) in
    let ncap = double_until need c.rcap need in
    elim (Bool-cases (ltb c.rcap need)) [
      | inr room ↦ rw room (append_lem m c (b ∷ bs))
      | inl full ↦ elim (Bool-cases (ltb rbuf_max_cap ncap || not m.realloc)) [
        | inl stops ↦ rw (full, stops) (free_base_lem m.base (live c))
        | inr grows ↦ rw (full, grows) (append_lem m (record c { rcap = ncap }) (b ∷ bs))
      ]
    ]

next_lem :
    (m : Memory) (c : Conn)
    → next_blocks m c (live c) ≡ some (live (try_dispatch_next (all_made m) c).0)
unfolding next_blocks try_dispatch_next maybe_close
next_lem m c = elim (Bool-cases c.closing) [
  | inl stops ↦ rw stops refl
  | inr stays ↦ elim (Bool-cases c.busy) [
    | inl busy ↦ rw (stays, busy) refl
    | inr idle ↦ elim (Option-cases (memchr b'\n' c.rbuf)) [
      | inl e ↦ rw (stays, idle, e) refl
      | inr (llen, e) ↦ rw (stays, idle, e, request_lem m c (take llen c.rbuf) idle) refl
    ]
  ]
]

free_request_lem :
    (c : Conn) → c.busy ≡ true → free_request (live c) ≡ some (live (record c { busy = false }))
unfolding free_request free
free_request_lem c busy = rw busy refl

pub after_work_lem :
    (status sent : Bool) (c : Conn) (w : WorkReq)
    → c.busy ≡ true
    → after_work_blocks status sent c w (live c) ≡ some (live (after_work_cb status sent c w).0)
unfolding after_work_blocks after_work_cb maybe_close
after_work_lem status sent c w busy =
    elim (Bool-cases (not status || c.closing || w.oom || length w.resp_buf == 0)) [
      | inl silent ↦ rw silent (free_request_lem c busy)
      | inr answers ↦ elim (Bool-cases sent) [
        | inl e ↦ rw (answers, e) refl
        | inr e ↦ rw (answers, e) (free_request_lem c busy)
      ]
    ]

pub on_write_lem :
    (status : Bool) (m : Memory) (c : Conn)
    → c.busy ≡ true
    → on_write_blocks status m c (live c) ≡ some (live (on_write status (all_made m) c).0)
unfolding on_write_blocks on_write maybe_close
on_write_lem true m c busy = rw (free_request_lem c busy) (next_lem m (record c { busy = false }))
on_write_lem false m c busy = rw (free_request_lem c busy) refl

pub on_close_lem : (c : Conn) → c.busy ≡ false → on_close (live c) ≡ some []
unfolding on_close free
on_close_lem c idle = rw idle refl
