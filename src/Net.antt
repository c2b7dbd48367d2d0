-- ===== src/Net.antt =====
-- src/net.c: the handlers of one connection. Each takes the connection and returns the new one with
-- what it asks of libuv. Which allocations succeed, and what libuv reports, are arguments.
pub mod Grow
pub mod Reply
pub mod Session
pub mod Framing
pub mod Invariant
pub mod Progress
pub mod Memory
pub mod Lifetime
pub mod Live
pub mod Life
pub mod Drain
use solidbits.Prelude.{
  ℕ, zero, suc, ◌+◌, ◌*◌, Bool, true, false, not, ◌&&◌, ◌||◌, Option, none, some, List, [], ◌∷◌,
  ◌++◌, take, drop, length, ltb, ◌==◌, if◌then◌else◌,
}

-- `struct conn_t`; `rbuf` is the part of the read buffer that is in use, of length `rlen`.
pub record Conn : Type 0 where
  pub rbuf : List ℕ
  pub rcap : ℕ
  pub busy : Bool
  pub closing : Bool

-- `struct work_req`; `resp_buf` is the part in use, of length `resp_len`.
pub record WorkReq : Type 0 where
  pub line : List ℕ
  pub resp_buf : List ℕ
  pub resp_cap : ℕ
  pub oom : Bool

-- `uv_queue_work`, `uv_write` and `uv_close`.
pub data Effect : Type 0 where
  queue_work : WorkReq → Effect
  write : WorkReq → Effect
  close : Effect

abbrev pub rbuf_init_cap : ℕ
rbuf_init_cap = 4096

abbrev pub rbuf_max_cap : ℕ
rbuf_max_cap = 65536

abbrev pub resp_init_cap : ℕ
resp_init_cap = 64

-- `while (ncap < need) ncap *= 2;` with fuel for its rounds.
unfoldable pub double_until : ℕ → ℕ → ℕ → ℕ
double_until zero ncap need = ncap
double_until (suc fuel) ncap need =
    let rest = double_until fuel (ncap * 2) need in if ltb ncap need then rest else ncap

-- `memchr`: the index of a byte.
unfoldable pub memchr : ℕ → List ℕ → Option ℕ
memchr c [] = none
memchr c (x ∷ xs) =
    if x == c then some 0 else elim (memchr c xs) [ none ↦ none | some i ↦ some (suc i) ]

-- `reply`, with whether `realloc` succeeds. What is read past the end of `s` is left out: `len` is within
-- `s` but for a number that `buf` of parse_and_execute cuts off.
unfoldable pub reply : Bool → WorkReq → List ℕ → ℕ → WorkReq
reply realloc w s len =
    let need = length w.resp_buf + len in
    let grows = ltb w.resp_cap need in
    if len == 0 then w else if grows && not realloc then record w { oom = true } else record w {
      resp_buf = w.resp_buf ++ take len s;
      resp_cap = if grows then double_until need w.resp_cap need else w.resp_cap;
    }

unfoldable pub maybe_close : Conn → Conn × List Effect
maybe_close c = (c, if c.closing && not c.busy then close ∷ [] else [])

-- `on_connection`, once `uv_accept` and `uv_read_start` have succeeded.
abbrev pub new_conn : Conn
new_conn = record { rbuf = []; rcap = rbuf_init_cap; busy = false; closing = false }

abbrev pub new_work : List ℕ → WorkReq
new_work line = record { line = line; resp_buf = []; resp_cap = resp_init_cap; oom = false }

-- `dispatch_line`, with whether its three allocations succeed.
unfoldable pub dispatch_line : Bool → Conn → List ℕ → Conn × List Effect
unfolding maybe_close
dispatch_line true c line = (record c { busy = true }, queue_work (new_work line) ∷ [])
dispatch_line false c line = maybe_close (record c { closing = true })

-- The `while (!c->busy && !c->closing)` loop of `on_read`, with fuel for its rounds, and the
-- `memmove` below it.
unfoldable pub dispatch_loop : ℕ → Bool → Conn → ℕ → List Effect → Conn × List Effect
unfolding dispatch_line memchr
dispatch_loop zero mem c scan out = (record c { rbuf = drop scan c.rbuf }, out)
dispatch_loop (suc fuel) mem c scan out =
    let stop : Conn × List Effect = (record c { rbuf = drop scan c.rbuf }, out) in
    let next : ℕ → Conn × List Effect = λ llen.
      let (c', out') = dispatch_line mem c (take llen (drop scan c.rbuf)) in
      dispatch_loop fuel mem c' (scan + (llen + 1)) (out ++ out') in
    if c.busy || c.closing
    then stop
    else elim (memchr b'\n' (drop scan c.rbuf)) [ none ↦ stop | some llen ↦ next llen ]

-- What `on_read` is called with: `nread < 0`, or the bytes read.
pub data Input : Type 0 where
  read_error : Input
  chunk : List ℕ → Input

abbrev pub close_down : Conn → Conn × List Effect
unfolding maybe_close
close_down c = maybe_close (record c { closing = true })

-- The part of `on_read` below the growth of the buffer.
unfoldable pub append_and_dispatch : Bool → Conn → List ℕ → Conn × List Effect
unfolding dispatch_loop
append_and_dispatch mem c bs =
    let c' = record c { rbuf = c.rbuf ++ bs } in dispatch_loop (suc (length c'.rbuf)) mem c' 0 []

-- `on_read`, with whether `realloc` and the allocations of a dispatch succeed.
unfoldable pub on_read : Bool → Bool → Conn → Input → Conn × List Effect
unfolding append_and_dispatch close_down
on_read realloc mem c read_error = close_down c
on_read realloc mem c (chunk []) = (c, [])
on_read realloc mem c (chunk (b ∷ bs)) =
    let need = length c.rbuf + length (b ∷ bs) in
    let ncap = double_until need c.rcap need in
    if ltb c.rcap need
    then if ltb rbuf_max_cap ncap || not realloc
      then close_down c
      else append_and_dispatch mem (record c { rcap = ncap }) (b ∷ bs)
    else append_and_dispatch mem c (b ∷ bs)

unfoldable pub try_dispatch_next : Bool → Conn → Conn × List Effect
unfolding dispatch_line memchr maybe_close
try_dispatch_next mem c =
    let next : ℕ → Conn × List Effect = λ llen.
      let (c', out) = dispatch_line mem c (take llen c.rbuf) in
      (record c' { rbuf = drop (llen + 1) c'.rbuf }, out) in
    if c.closing
    then maybe_close c
    else if c.busy
    then (c, [])
    else elim (memchr b'\n' c.rbuf) [ none ↦ (c, []) | some llen ↦ next llen ]

-- `after_work_cb`, with whether its status and `uv_write` are good.
unfoldable pub after_work_cb : Bool → Bool → Conn → WorkReq → Conn × List Effect
unfolding maybe_close
after_work_cb status sent c w =
    if not status || c.closing || w.oom || length w.resp_buf == 0
    then maybe_close (record c { busy = false })
    else if sent
    then (c, write w ∷ [])
    else maybe_close (record c { busy = false; closing = true })

-- `on_write`, with whether its status is good.
unfoldable pub on_write : Bool → Bool → Conn → Conn × List Effect
unfolding maybe_close try_dispatch_next
on_write status mem c =
    let c' = record c { busy = false } in
    if status then try_dispatch_next mem c' else maybe_close (record c' { closing = true })
