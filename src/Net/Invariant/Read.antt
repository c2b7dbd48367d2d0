-- ===== src/Net/Invariant/Read.antt =====
-- Every read keeps the invariant.
use solidbits.Prelude.{
  ℕ, ◌+◌, ◌≤◌, ◌≡◌, refl, Bool, not, ◌||◌, List, [], ◌∷◌, ◌++◌, append-nil, length, length-append,
  ltb, inl, inr, Bool-cases, arith,
}
use solidbits.Net.{
  Input, read_error, chunk, on_read, append_and_dispatch, rbuf_max_cap, double_until,
}
use solidbits.Net.Grow.{double_until_lem}
use solidbits.Net.Framing.{dispatch_loop_lem}
use solidbits.Net.Session.{Session, after}
use solidbits.Net.Invariant.Defs.{Inv}
use solidbits.Net.Invariant.Dispatch.{dispatch-Inv}
use solidbits.Net.Invariant.Close.{receive, Framed-more, close_down-Inv}

append-Inv :
    (s : Session) (mem : Bool) (bs : List ℕ) (rcap : ℕ)
    → s.conn.rcap ≤ rcap
    → rcap ≤ rbuf_max_cap
    → length s.conn.rbuf + length bs ≤ rcap
    → Inv s
    → Inv
        (after (receive s (chunk bs)) (append_and_dispatch mem (record s.conn { rcap = rcap }) bs))
unfolding append_and_dispatch
append-Inv s mem bs rcap le cap fit v =
    let c = record s.conn { rcap = rcap; rbuf = s.conn.rbuf ++ bs } in
    let s' = record s { conn = c; received = s.received ++ bs } in
    rw (dispatch_loop_lem (length (s.conn.rbuf ++ bs)) mem c) (
      dispatch-Inv s' mem (record {
        flight = v.flight;
        closed = v.closed;
        room = omega (arith, v.room);
        fits = omega (arith, length-append s.conn.rbuf bs);
        capped = cap;
        framed = Framed-more s.conn c s.received bs s.dispatched v.framed (λ e. (e, refl));
        lines = v.lines;
        order = v.order;
      }))

pub on_read-Inv :
    (s : Session) (realloc mem : Bool) (i : Input)
    → s.closes ≡ 0
    → Inv s
    → Inv (after (receive s i) (on_read realloc mem s.conn i))
unfolding on_read
on_read-Inv s realloc mem read_error e v = close_down-Inv s read_error e v
on_read-Inv s realloc mem (chunk []) e v = rw append-nil v
on_read-Inv s realloc mem (chunk (b ∷ bs)) e v =
    let need = length s.conn.rbuf + length (b ∷ bs) in
    let ncap = double_until need s.conn.rcap need in
    let grown = double_until_lem need s.conn.rcap need v.room (omega arith) in
    elim (Bool-cases (ltb s.conn.rcap need)) [
      | inl grows ↦ elim (Bool-cases (ltb rbuf_max_cap ncap || not realloc)) [
        | inl over ↦ rw (grows, over) (close_down-Inv s (chunk (b ∷ bs)) e v)
        | inr under ↦
            rw (grows, under)
              (append-Inv s mem (b ∷ bs) ncap grown.keeps (ground arith) grown.enough v)
      ]
      | inr fits ↦
          rw fits (append-Inv s mem (b ∷ bs) s.conn.rcap (omega arith) v.capped (ground arith) v)
    ]
