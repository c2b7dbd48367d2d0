-- ===== src/Net/Invariant/Finish.antt =====
-- The end of a request keeps the invariant, on a worker or in a write.
use solidbits.Prelude.{
  ℕ, ◌≡◌, refl, sym, ap, ◌∙◌, Bool, true, false, not, ◌||◌, List, [], ◌∷◌, ◌++◌, append-nil, length,
  ◌==◌, inl, inr, Bool-cases, arith,
}
use solidbits.Net.{WorkReq, after_work_cb, on_write}
use solidbits.Net.Framing.{try_dispatch_next_lem}
use solidbits.Net.Session.{idle, working, writing, Session, after}
use solidbits.Net.Invariant.Defs.{in_flight, current, Inv, buffered_unless, buffered_while}
use solidbits.Net.Invariant.Dispatch.{dispatch-Inv}
use solidbits.Net.Invariant.Close.{Ready, maybe_close-Inv}

Ready-Inv : (s : Session) → Ready s → s.conn.closing ≡ false → Inv s
Ready-Inv s r e = record {
  flight = r.flight;
  closed = rw e r.unclosed;
  room = r.room;
  fits = r.fits;
  capped = r.capped;
  framed = r.framed;
  lines = r.lines;
  order = r.order;
}

-- The session once the request in flight is over.
abbrev settled : Session → List (List ℕ) → Bool → Session
settled s answered closing = record s {
  phase = idle;
  answered = answered;
  conn = record s.conn { busy = false; closing = closing };
}

settled-Ready :
    (s : Session) (answered : List (List ℕ)) (closing : Bool)
    → Inv s
    → s.conn.busy ≡ true
    → s.dispatched ≡ answered
    → (closing ≡ false → s.conn.closing ≡ false)
    → Ready (settled s answered closing)
settled-Ready s answered closing v busy done still = record {
  flight = refl;
  unclosed = ground (arith, v.closed);
  room = v.room;
  fits = v.fits;
  capped = v.capped;
  framed = record {
    rest = v.framed.rest;
    whole = v.framed.whole;
    buffered =
        buffered_unless (record s.conn { busy = false; closing = closing }) v.framed.rest
          (λ e. buffered_while s.conn v.framed.rest v.framed.buffered (still e));
  };
  lines = v.lines;
  order = done ∙ sym (append-nil answered);
}

pub finishes-Inv :
    (s : Session) (status sent : Bool) (w : WorkReq)
    → s.phase ≡ working w.line
    → Inv s
    → Inv (
        after
          (record s { phase = idle; answered = s.answered ++ w.line ∷ [] })
          (after_work_cb status sent s.conn w))
unfolding after_work_cb
finishes-Inv s status sent w p v =
    let busy : s.conn.busy ≡ true = v.flight ∙ ap in_flight p in
    let answered = s.answered ++ w.line ∷ [] in
    let done : s.dispatched ≡ answered = v.order ∙ ap (λ q. s.answered ++ current q) p in
    elim (Bool-cases (not status || s.conn.closing || w.oom || length w.resp_buf == 0)) [
      | inl silent ↦ rw silent (
          maybe_close-Inv (settled s answered s.conn.closing)
            (settled-Ready s answered s.conn.closing v busy done (λ e. e)))
      | inr speaks ↦ elim (Bool-cases sent) [
        | inl ok ↦
            rw (speaks, ok)
              (record {
                flight = busy;
                closed = ground (arith, v.closed);
                room = v.room;
                fits = v.fits;
                capped = v.capped;
                framed = v.framed;
                lines = v.lines;
                order = done ∙ sym (append-nil answered);
              })
        | inr failed ↦
            rw (speaks, failed)
              (maybe_close-Inv (settled s answered true)
                (settled-Ready s answered true v busy done (λ e. cc)))
      ]
    ]

pub wrote-Inv :
    (s : Session) (status mem : Bool) (line : List ℕ)
    → s.phase ≡ writing line
    → Inv s
    → Inv (after (record s { phase = idle }) (on_write status mem s.conn))
unfolding on_write
wrote-Inv s status mem line p v =
    let busy : s.conn.busy ≡ true = v.flight ∙ ap in_flight p in
    let done : s.dispatched ≡ s.answered =
      v.order ∙ ap (λ q. s.answered ++ current q) p ∙ append-nil s.answered in
    let ready = settled-Ready s s.answered s.conn.closing v busy done (λ e. e) in
    elim (Bool-cases status) [
      | inl ok ↦ elim (Bool-cases s.conn.closing) [
        | inl shut ↦
            rw (ok, shut)
              (maybe_close-Inv (settled s s.answered true)
                (settled-Ready s s.answered true v busy done (λ e. cc)))
        | inr open_handle ↦
            rw (ok, try_dispatch_next_lem mem (record s.conn { busy = false }) open_handle)
              (dispatch-Inv (settled s s.answered s.conn.closing) mem
                (Ready-Inv (settled s s.answered s.conn.closing) ready open_handle))
      ]
      | inr failed ↦ rw failed (
          maybe_close-Inv (settled s s.answered true)
            (settled-Ready s s.answered true v busy done (λ e. cc)))
    ]
