-- ===== src/Parser/Stalls.antt =====
-- src/net.c and src/parser.c: what a BITPOS line does to the lines behind it.
use solidbits.Prelude.{
  ℕ, zero, suc, ◌≡◌, ◌≤◌, refl, ap, ◌∙◌, Bool, true, false, some, List, [], ◌∷◌, ◌++◌, take, length,
  arith,
}
use solidbits.Store.{Store}
use solidbits.Net.{Conn, WorkReq, new_work, memchr, after_work_cb}
use solidbits.Net.Session.{Session, idle, working, after, Step, finishes}
use solidbits.Net.Drain.{drain, callback}
use solidbits.Parser.Answer.{Answer, no_answer, answer_to}
use solidbits.Parser.Cases.{bitpos_hash}
use solidbits.Parser.Execute.{parse_and_execute}
use solidbits.Parser.Unanswered.{bitpos_is_silent}

-- The session once the worker has come back with this answer to the line.
abbrev pub finished : Session → List ℕ → Bool → Bool → Answer → Session
finished n line realloc sent a =
    let w = answer_to realloc (new_work line) a in
    after (record n { phase = idle; answered = n.answered ++ w.line ∷ [] })
      (after_work_cb true sent n.conn w)

-- Nothing is in flight, and no callback is due however long one waits, but a line is buffered.
pub record Stalled (t : Session) (llen : ℕ) : Type 0 where
  pub at_rest : t.phase ≡ idle
  pub stays : t.conn.closing ≡ false
  pub waits : memchr b'\n' t.conn.rbuf ≡ some llen
  pub nothing_due : (k : ℕ) (f : List ℕ → WorkReq) → drain k f t ≡ t

idle_drains : (k : ℕ) (f : List ℕ → WorkReq) (t : Session) → t.phase ≡ idle → drain k f t ≡ t
idle_drains zero f t e = refl
idle_drains (suc k) f t e = ap (λ p. drain k f (callback f p t)) e ∙ idle_drains k f t e

silent_lem :
    (c : Conn) (line : List ℕ) (realloc sent : Bool)
    → c.closing ≡ false
    → after_work_cb true sent c (answer_to realloc (new_work line) no_answer)
      ≡ (record c { busy = false }, [])
unfolding after_work_cb answer_to
silent_lem c line realloc sent stays = ground arith

-- A worker that has a BITPOS line of at least ten bytes comes back without an answer, and so leaves the
-- connection with nothing in flight though a whole line is buffered: no callback comes that would hand
-- it to the pool, whatever the workers would answer, until more bytes are read.
pub bitpos_stalls :
    (xxh64 : List ℕ → ℕ) (line : List ℕ) (s : Store) (n : Session) (realloc sent : Bool) (llen : ℕ)
    → 10 ≤ length line
    → xxh64 (take 5 line) ≡ bitpos_hash
    → n.phase ≡ working line
    → n.conn.closing ≡ false
    → memchr b'\n' n.conn.rbuf ≡ some llen
    → (a : Answer) × (parse_and_execute xxh64 line s ≡ some (a, s))
      × Step n (finished n line realloc sent a)
      × Stalled (finished n line realloc sent a) llen
unfolding answer_to
bitpos_stalls xxh64 line s n realloc sent llen long h at stays found =
    let e = silent_lem n.conn line realloc sent stays in
    let t : Session = finished n line realloc sent no_answer in
    let rest : t.phase ≡ idle = rw e refl in
    (
      no_answer,
      bitpos_is_silent xxh64 line s long h,
      finishes true sent (new_work line) at,
      record {
        at_rest = rest;
        stays = rw e stays;
        waits = rw e found;
        nothing_due = λ k f. idle_drains k f t rest;
      },
    )
