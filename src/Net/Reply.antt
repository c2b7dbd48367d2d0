-- ===== src/Net/Reply.antt =====
-- `reply` keeps the response within its buffer.
use solidbits.Prelude.{
  ℕ, ◌+◌, ◌≤◌, ◌<◌, Bool, List, take, length, length-append, length-take, arith,
}
use solidbits.Net.{WorkReq, reply}
use solidbits.Net.Grow.{double_until_lem}

pub record Fits (w : WorkReq) : Type 0 where
  pub some_room : 0 < w.resp_cap
  pub within : length w.resp_buf ≤ w.resp_cap

-- A reply keeps the response within its buffer, whether or not the buffer can grow.
pub reply-Fits :
    (realloc : Bool) (w : WorkReq) (s : List ℕ) (len : ℕ) → Fits w → Fits (reply realloc w s len)
unfolding reply
reply-Fits realloc w s len f =
    let need = length w.resp_buf + len in
    let grown = double_until_lem need w.resp_cap need f.some_room (omega arith) in
    ground (
      arith,
      grown.enough,
      grown.keeps,
      length-append w.resp_buf (take len s),
      length-take len s,
      f.some_room,
      f.within,
    )
