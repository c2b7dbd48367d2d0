-- ===== src/Net/Lifetime.antt =====
-- src/net.c: what the handlers of a connection do to its blocks of memory, along the branches that they
-- take in Net, from the first read to on_close.
use solidbits.Prelude.{
  ℕ, zero, suc, ◌+◌, Bool, false, not, ◌&&◌, ◌||◌, Option, none, some, List, [], ◌∷◌, ◌++◌, take,
  drop, length, ltb, ◌==◌, if◌then◌else◌,
}
use solidbits.Net.{
  Conn, WorkReq, Input, read_error, chunk, rbuf_max_cap, double_until, memchr, dispatch_line,
}
use solidbits.Net.Memory.{read_block, Heap, free, ◌>>=◌, new_request, free_request}

abbrev pub read_chunk : ℕ
read_chunk = 4096

-- `alloc_cb`: the length of the buffer, 0 for none.
unfoldable pub alloc_cb : Bool → Heap → ℕ × Heap
alloc_cb malloc heap = if malloc then (read_chunk, read_block ∷ heap) else (0, heap)

-- `free(buf->base)`, where a NULL is left alone.
unfoldable pub free_base : Bool → Heap → Option Heap
unfolding free
free_base base heap = if base then free read_block heap else some heap

-- What a call of a handler meets: whether there is a buffer, whether `realloc` gives memory, and whether
-- each of the three allocations of `dispatch_line` does.
pub record Memory : Type 0 where
  pub base : Bool
  pub realloc : Bool
  pub calloc : Bool
  pub malloc_line : Bool
  pub malloc_resp : Bool

abbrev pub all_made : Memory → Bool
all_made m = m.calloc && m.malloc_line && m.malloc_resp

unfoldable pub request : Memory → Heap → Option (Bool × Heap)
unfolding new_request
request m heap = new_request m.calloc m.malloc_line m.malloc_resp heap

unfoldable pub loop_blocks : ℕ → Memory → Conn → ℕ → Heap → Option Heap
unfolding request dispatch_line memchr
loop_blocks zero m c scan heap = some heap
loop_blocks (suc fuel) m c scan heap =
    let next = λ (llen : ℕ). request m heap >>= λ (r : Bool × Heap).
    loop_blocks fuel m (dispatch_line r.0 c (take llen (drop scan c.rbuf))).0 (scan + (llen + 1))
      r.1 in
    if c.busy || c.closing
    then some heap
    else elim (memchr b'\n' (drop scan c.rbuf)) [ none ↦ some heap | some llen ↦ next llen ]

-- `on_read` from where the buffer is large enough.
unfoldable pub append_blocks : Memory → Conn → List ℕ → Heap → Option Heap
unfolding free_base loop_blocks
append_blocks m c bs heap =
    let c' = record c { rbuf = c.rbuf ++ bs } in
    free_base m.base heap >>= λ heap. loop_blocks (suc (length c'.rbuf)) m c' 0 heap

unfoldable pub on_read_blocks : Memory → Conn → Input → Heap → Option Heap
unfolding free_base append_blocks
on_read_blocks m c read_error heap = free_base m.base heap
on_read_blocks m c (chunk []) heap = free_base m.base heap
on_read_blocks m c (chunk (b ∷ bs)) heap =
    let need = length c.rbuf + length (b ∷ bs) in
    let ncap = double_until need c.rcap need in
    if ltb c.rcap need
    then if ltb rbuf_max_cap ncap || not m.realloc
      then free_base m.base heap
      else append_blocks m (record c { rcap = ncap }) (b ∷ bs) heap
    else append_blocks m c (b ∷ bs) heap

unfoldable pub next_blocks : Memory → Conn → Heap → Option Heap
unfolding request memchr
next_blocks m c heap =
    let next = request m heap >>= λ (r : Bool × Heap). some r.1 in
    if c.closing || c.busy
    then some heap
    else elim (memchr b'\n' c.rbuf) [ none ↦ some heap | some llen ↦ next ]

unfoldable pub after_work_blocks : Bool → Bool → Conn → WorkReq → Heap → Option Heap
unfolding free_request
after_work_blocks status sent c w heap =
    if not status || c.closing || w.oom || length w.resp_buf == 0
    then free_request heap
    else if sent
    then some heap
    else free_request heap

unfoldable pub on_write_blocks : Bool → Memory → Conn → Heap → Option Heap
unfolding free_request next_blocks
on_write_blocks status m c heap = free_request heap >>= λ heap.
    if status then next_blocks m (record c { busy = false }) heap else some heap
