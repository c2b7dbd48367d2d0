-- ===== src/Net/Drain.antt =====
-- src/net.c, after_work_cb and on_write in turn: the buffered lines of a connection are all answered.
use solidbits.Prelude.{
  ℕ, zero, suc, ◌+◌, ◌-◌, ◌*◌, ◌≤◌, ◌<◌, ◌≡◌, refl, sym, ap, subst, ◌∙◌, true, false, none, some,
  List, [], ◌∷◌, ◌++◌, append-nil, drop, length, length-drop, ◌==◌, inl, inr, Option-cases, arith,
}
use solidbits.Net.{Conn, WorkReq, write, memchr, after_work_cb, on_write}
use solidbits.Net.Framing.{frames, AreLines, dispatch_first, try_dispatch_next_lem}
use solidbits.Net.Session.{
  Phase, idle, working, writing, Session, after, finishes, wrote, Reach, next,
}
use solidbits.Net.Invariant.{Inv, Framed, current, buffered_while, Reach-Inv}
use solidbits.Net.Progress.{on_write_continues}

-- The callback that is due: the worker answers its line with `f`, and what it writes is written.
abbrev pub callback : (List ℕ → WorkReq) → Phase → Session → Session
callback f idle s = s
callback f (working l) s =
    after (record s { phase = idle; answered = s.answered ++ (f l).line ∷ [] })
      (after_work_cb true true s.conn (f l))
callback f (writing l) s = after (record s { phase = idle }) (on_write true true s.conn)

abbrev pub drain : ℕ → (List ℕ → WorkReq) → Session → Session
drain zero f s = s
drain (suc n) f s = drain n f (callback f s.phase s)

-- The callbacks that are left, at most.
abbrev left_in : Phase → ℕ → ℕ
left_in idle n = 0
left_in (working l) n = 2 * n + 2
left_in (writing l) n = 2 * n + 1

abbrev pub left : Session → ℕ
left s = left_in s.phase (length s.conn.rbuf)

-- A worker gives back the line that it was given, with some answer.
pub record Answers (f : List ℕ → WorkReq) : Type 0 where
  pub line : (l : List ℕ) → (f l).line ≡ l
  pub some_bytes : (l : List ℕ) → length (f l).resp_buf == 0 ≡ false
  pub has_memory : (l : List ℕ) → (f l).oom ≡ false

abbrev pub Awake : Session → Type 0
Awake s = (s.phase ≡ idle) → memchr b'\n' s.conn.rbuf ≡ none

-- A connection that is served, and one that comes from it with what it had received.
record Going (s : Session) : Type 0 where
  reach : Reach s
  stays : s.conn.closing ≡ false
  awake : Awake s

record Goes (s t : Session) : Type 0 where
  going : Going t
  same : t.received ≡ s.received
  fewer : left t ≤ left s - 1

answering :
    (f : List ℕ → WorkReq) (c : Conn) (l : List ℕ)
    → Answers f
    → c.closing ≡ false
    → after_work_cb true true c (f l) ≡ (c, write (f l) ∷ [])
unfolding after_work_cb
answering f c l a stays = rw (stays, a.has_memory l, a.some_bytes l) refl

written_last :
    (c : Conn)
    → c.closing ≡ false
    → memchr b'\n' c.rbuf ≡ none
    → on_write true true c ≡ (record c { busy = false }, [])
unfolding on_write dispatch_first
written_last c stays over =
    rw (try_dispatch_next_lem true (record c { busy = false }) stays, stays, over) (ground arith)

memchr-length : (buf : List ℕ) (llen : ℕ) → memchr b'\n' buf ≡ some llen → 0 < length buf
unfolding memchr
memchr-length [] llen h = cc
memchr-length (x ∷ buf) llen h = omega arith

working-Goes :
    (f : List ℕ → WorkReq) (s : Session) (l : List ℕ)
    → Answers f
    → s.phase ≡ working l
    → Going s
    → Goes s (callback f (working l) s)
working-Goes f s l a at g =
    let e = answering f s.conn l a g.stays in
    let made = after (record s { phase = idle; answered = s.answered ++ (f l).line ∷ [] }) in
    let r : Reach (made (after_work_cb true true s.conn (f l))) =
      next g.reach (finishes true true (f l) (at ∙ ap working (sym (a.line l)))) in
    record {
      going = record { reach = r; stays = rw e g.stays; awake = rw e (λ q. cc) };
      same = rw e refl;
      fewer = rw (e, at) (omega arith);
    }

writing-Goes :
    (f : List ℕ → WorkReq) (s : Session) (l : List ℕ)
    → s.phase ≡ writing l
    → Going s
    → Goes s (callback f (writing l) s)
writing-Goes f s l at g =
    let r : Reach (after (record s { phase = idle }) (on_write true true s.conn)) =
      next g.reach (wrote true true l at) in
    elim (Option-cases (memchr b'\n' s.conn.rbuf)) [
      | inl over ↦
          let e = written_last s.conn g.stays over in
          record {
            going = record { reach = r; stays = rw e g.stays; awake = rw e (λ q. over) };
            same = rw e refl;
            fewer = rw (e, at) (omega arith);
          }
      | inr (llen, found) ↦
          let e = on_write_continues s.conn llen g.stays found in
          let some_there : 0 < length s.conn.rbuf = memchr-length s.conn.rbuf llen found in
          let dropped : length (drop (llen + 1) s.conn.rbuf) ≡ length s.conn.rbuf - (llen + 1) =
            length-drop (llen + 1) s.conn.rbuf in
          record {
            going = record { reach = r; stays = rw e g.stays; awake = rw e (λ q. cc) };
            same = rw e refl;
            fewer = rw (e, at) (omega arith);
          }
    ]

callback-Goes :
    (f : List ℕ → WorkReq) (s : Session) (p : Phase)
    → Answers f
    → s.phase ≡ p
    → Going s
    → Goes s (callback f p s)
callback-Goes f s idle a at g = record { going = g; same = refl; fewer = rw at (omega arith) }
callback-Goes f s (working l) a at g = working-Goes f s l a at g
callback-Goes f s (writing l) a at g = writing-Goes f s l at g

idle_when_done : (s : Session) → left s ≤ 0 → s.phase ≡ idle
idle_when_done s h = by_phase s.phase (length s.conn.rbuf) h
  where
    by_phase : (p : Phase) (n : ℕ) → left_in p n ≤ 0 → p ≡ idle
    by_phase idle n h = refl
    by_phase (working l) n h = absurd (omega arith)
    by_phase (writing l) n h = absurd (omega arith)

-- Everything that is a whole line has been answered.
pub record Answered (s t : Session) : Type 0 where
  pub reach : Reach t
  pub same : t.received ≡ s.received
  pub done : t.phase ≡ idle
  pub lines : AreLines t.answered
  pub whole : t.received ≡ frames t.answered ++ t.conn.rbuf
  pub part : memchr b'\n' t.conn.rbuf ≡ none

settled : (s : Session) → Going s → s.phase ≡ idle → Answered s s
settled s g at =
    let v : Inv s = Reach-Inv g.reach in
    let framed : Framed s.conn s.received s.dispatched = v.framed in
    let all : s.dispatched ≡ s.answered =
      v.order ∙ ap (λ p. s.answered ++ current p) at ∙ append-nil s.answered in
    let rest : framed.rest ≡ s.conn.rbuf =
      buffered_while s.conn framed.rest framed.buffered g.stays in
    record {
      reach = g.reach;
      same = refl;
      done = at;
      lines = subst AreLines all v.lines;
      whole =
          framed.whole
          ∙ ap (λ ls. frames ls ++ framed.rest) all
          ∙ ap (λ r. frames s.answered ++ r) rest;
      part = g.awake at;
    }

drain_lem :
    (n : ℕ) (f : List ℕ → WorkReq) (s : Session)
    → Answers f
    → Going s
    → left s ≤ n
    → Answered s (drain n f s)
drain_lem zero f s a g few = settled s g (idle_when_done s few)
drain_lem (suc n) f s a g few =
    let c = callback-Goes f s s.phase a refl g in
    let t = drain_lem n f (callback f s.phase s) a c.going (let k = c.fewer in omega arith) in
    record {
      reach = t.reach;
      same = t.same ∙ c.same;
      done = t.done;
      lines = t.lines;
      whole = t.whole;
      part = t.part;
    }

-- From any moment at which the connection is not closing, and no whole line is buffered while nothing is
-- in flight: if the worker answers each line with some bytes, no call fails and nothing more arrives,
-- then after two callbacks for each byte that is buffered and two more, every whole line that was
-- received has been answered, in order, and what is left in the buffer is no whole line.
pub lines_answered :
    (n : ℕ) (f : List ℕ → WorkReq) (s : Session)
    → Answers f
    → Reach s
    → s.conn.closing ≡ false
    → Awake s
    → 2 * length s.conn.rbuf + 2 ≤ n
    → Answered s (drain n f s)
lines_answered n f s a r stays awake enough =
    drain_lem n f s a (record { reach = r; stays = stays; awake = awake }) (few s.phase enough)
  where
    few : (p : Phase) → 2 * length s.conn.rbuf + 2 ≤ n → left_in p (length s.conn.rbuf) ≤ n
    few idle h = omega arith
    few (working l) h = omega arith
    few (writing l) h = omega arith
