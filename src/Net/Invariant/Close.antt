-- ===== src/Net/Invariant/Close.antt =====
-- Closing, at once or as soon as no request is in flight, keeps the invariant.
use solidbits.Prelude.{
  ℕ, suc, ◌≤◌, ◌<◌, ◌≡◌, sym, ap, ◌∙◌, true, false, not, ◌&&◌, List, ◌++◌, append_assoc, length,
  inl, inr, Bool-cases,
}
use solidbits.Net.{Conn, Input, maybe_close, close_down, rbuf_max_cap}
use solidbits.Net.Framing.{frames, AreLines}
use solidbits.Net.Session.{Session, after, input_bytes}
use solidbits.Net.Invariant.Defs.{in_flight, current, Framed, Inv, buffered_unless, buffered_while}

-- Bytes that arrive go to the end of the rest, whether or not they still go to the buffer.
pub Framed-more :
    (c c' : Conn) (received more : List ℕ) (dispatched : List (List ℕ))
    → Framed c received dispatched
    → (c'.closing ≡ false → (c.closing ≡ false) × (c'.rbuf ≡ c.rbuf ++ more))
    → Framed c' (received ++ more) dispatched
Framed-more c c' received more dispatched f keeps = record {
  rest = f.rest ++ more;
  whole = ap (λ t. t ++ more) f.whole ∙ append_assoc (frames dispatched) f.rest more;
  buffered = buffered_unless c' (f.rest ++ more) λ e.
      let (was_open, grown) = keeps e in
      ap (λ t. t ++ more) (buffered_while c f.rest f.buffered was_open) ∙ sym grown;
}

abbrev pub receive : Session → Input → Session
receive s i = record s { received = s.received ++ input_bytes i }

-- A session in order whose handle is still open, on the way to `maybe_close`.
pub record Ready (s : Session) : Type 0 where
  pub flight : s.conn.busy ≡ in_flight s.phase
  pub unclosed : s.closes ≡ 0
  pub room : 0 < s.conn.rcap
  pub fits : length s.conn.rbuf ≤ s.conn.rcap
  pub capped : s.conn.rcap ≤ rbuf_max_cap
  pub framed : Framed s.conn s.received s.dispatched
  pub lines : AreLines s.dispatched
  pub order : s.dispatched ≡ s.answered ++ current s.phase

pub maybe_close-Inv : (s : Session) → Ready s → Inv (after s (maybe_close s.conn))
unfolding maybe_close
maybe_close-Inv s r = elim (Bool-cases (s.conn.closing && not s.conn.busy)) [
  | inl shut ↦ rw shut (record {
    flight = r.flight;
    closed = rw shut (ap suc r.unclosed);
    room = r.room;
    fits = r.fits;
    capped = r.capped;
    framed = r.framed;
    lines = r.lines;
    order = r.order;
  })
  | inr wait ↦ rw wait (record {
    flight = r.flight;
    closed = rw wait r.unclosed;
    room = r.room;
    fits = r.fits;
    capped = r.capped;
    framed = r.framed;
    lines = r.lines;
    order = r.order;
  })
]

pub close_down-Inv :
    (s : Session) (i : Input) → s.closes ≡ 0 → Inv s → Inv (after (receive s i) (close_down s.conn))
unfolding close_down
close_down-Inv s i e v =
    let c = record s.conn { closing = true } in
    maybe_close-Inv (record s { conn = c; received = s.received ++ input_bytes i })
      (record {
        flight = v.flight;
        unclosed = e;
        room = v.room;
        fits = v.fits;
        capped = v.capped;
        framed = Framed-more s.conn c s.received (input_bytes i) s.dispatched v.framed (λ e. cc);
        lines = v.lines;
        order = v.order;
      })
