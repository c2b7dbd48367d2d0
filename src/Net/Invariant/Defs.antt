-- ===== src/Net/Invariant/Defs.antt =====
-- The invariant of a connection, and that it holds when the connection is accepted.
use solidbits.Prelude.{
  ℕ, ◌≤◌, ◌<◌, ◌≡◌, refl, Bool, true, false, not, ◌&&◌, List, [], ◌∷◌, ◌++◌, length, ◌⊎◌, inl, inr,
  Bool-cases, if◌then◌else◌, arith,
}
use solidbits.Net.{Conn, rbuf_max_cap}
use solidbits.Net.Framing.{frames, AreLines}
use solidbits.Net.Session.{Phase, idle, working, writing, Session, start}

abbrev pub in_flight : Phase → Bool
in_flight idle = false
in_flight (working l) = true
in_flight (writing l) = true

-- The line that a worker has and has not answered.
abbrev pub current : Phase → List (List ℕ)
current idle = []
current (working l) = l ∷ []
current (writing l) = []

-- The received bytes are the dispatched lines, each with its newline, and then `rest`; as long as the
-- connection is not closing, `rest` is what the buffer holds.
pub record Framed (c : Conn) (received : List ℕ) (dispatched : List (List ℕ)) : Type 0 where
  pub rest : List ℕ
  pub whole : received ≡ frames dispatched ++ rest
  pub buffered : (c.closing ≡ true) ⊎ (rest ≡ c.rbuf)

pub buffered_unless :
    (c : Conn) (rest : List ℕ)
    → (c.closing ≡ false → rest ≡ c.rbuf)
    → (c.closing ≡ true) ⊎ (rest ≡ c.rbuf)
buffered_unless c rest h = elim (Bool-cases c.closing) [ inl e ↦ inl e | inr e ↦ inr (h e) ]

pub buffered_while :
    (c : Conn) (rest : List ℕ)
    → (c.closing ≡ true) ⊎ (rest ≡ c.rbuf)
    → c.closing ≡ false
    → rest ≡ c.rbuf
buffered_while c rest (inl shut) e = cc
buffered_while c rest (inr same) e = same

pub record Inv (s : Session) : Type 0 where
  pub flight : s.conn.busy ≡ in_flight s.phase
  pub closed : s.closes ≡ (if s.conn.closing && not s.conn.busy then 1 else 0)
  pub room : 0 < s.conn.rcap
  pub fits : length s.conn.rbuf ≤ s.conn.rcap
  pub capped : s.conn.rcap ≤ rbuf_max_cap
  pub framed : Framed s.conn s.received s.dispatched
  pub lines : AreLines s.dispatched
  pub order : s.dispatched ≡ s.answered ++ current s.phase

pub start-Inv : Inv start
unfolding frames
start-Inv = record {
  flight = refl;
  closed = refl;
  room = omega arith;
  fits = omega arith;
  capped = omega arith;
  framed = record { rest = []; whole = refl; buffered = inr refl };
  lines = tt;
  order = refl;
}
