-- ===== src/Net/Invariant/Dispatch.antt =====
-- Handing the first buffered line to the pool keeps the invariant.
use solidbits.Prelude.{
  ℕ, ◌+◌, ◌≡◌, refl, sym, ap, ◌∙◌, Bool, true, false, ◌||◌, some, List, [], ◌∷◌, ◌++◌, append-nil,
  take, drop, length-drop, inl, inr, Bool-cases, Option-cases, arith,
}
use solidbits.Net.{queue_work, close, new_work, memchr}
use solidbits.Net.Framing.{
  frames, frames-snoc, AreLines-snoc, FirstLine, memchr-FirstLine, dispatch_first,
}
use solidbits.Net.Session.{Session, after}
use solidbits.Net.Invariant.Defs.{current, Inv, buffered_while}

module _ (s : Session) (v : Inv s) (open_handle : s.conn.closing ≡ false)
    (free : s.conn.busy ≡ false) (llen : ℕ) (found : memchr b'\n' s.conn.rbuf ≡ some llen) where
  abbrev line : List ℕ
  line = take llen s.conn.rbuf

  abbrev left : List ℕ
  left = drop (llen + 1) s.conn.rbuf

  first : FirstLine s.conn.rbuf llen
  first = memchr-FirstLine s.conn.rbuf llen found

  idle_now : current s.phase ≡ []
  idle_now = ground (arith, v.flight)

  queued-Inv :
      Inv (after s (record s.conn { busy = true; rbuf = left }, queue_work (new_work line) ∷ []))
  queued-Inv = record {
    flight = refl;
    closed = ground (arith, v.closed);
    room = v.room;
    fits = omega (arith, v.fits, length-drop (llen + 1) s.conn.rbuf);
    capped = v.capped;
    framed = record {
      rest = left;
      whole =
          v.framed.whole
          ∙ ap (λ t. frames s.dispatched ++ t)
              (buffered_while s.conn v.framed.rest v.framed.buffered open_handle ∙ first.splits)
          ∙ sym (frames-snoc s.dispatched line left);
      buffered = inr refl;
    };
    lines = AreLines-snoc s.dispatched line v.lines first.is_line;
    order = ap (λ t. t ++ line ∷ []) (v.order ∙ ap (λ t. s.answered ++ t) idle_now ∙ append-nil _);
  }

  dropped-Inv : Inv (after s (record s.conn { closing = true; rbuf = left }, close ∷ []))
  dropped-Inv = record {
    flight = v.flight;
    closed = ground (arith, v.closed);
    room = v.room;
    fits = omega (arith, v.fits, length-drop (llen + 1) s.conn.rbuf);
    capped = v.capped;
    framed = record { rest = v.framed.rest; whole = v.framed.whole; buffered = inl refl };
    lines = v.lines;
    order = v.order;
  }

pub dispatch-Inv : (s : Session) (mem : Bool) → Inv s → Inv (after s (dispatch_first mem s.conn))
unfolding dispatch_first
dispatch-Inv s mem v = elim (Bool-cases (s.conn.busy || s.conn.closing)) [
  | inl wait ↦ rw wait v
  | inr go ↦ elim (Option-cases (memchr b'\n' s.conn.rbuf)) [
    | inl half ↦ rw (go, half) v
    | inr (llen, found) ↦
        let open_handle : s.conn.closing ≡ false = ground arith in
        let free : s.conn.busy ≡ false = ground arith in
        elim (Bool-cases mem) [
          | inl m ↦ rw (go, found, m) (queued-Inv s v open_handle free llen found)
          | inr m ↦ rw (go, found, m) (dropped-Inv s v open_handle free llen found)
        ]
  ]
]
