-- ===== src/Net/Framing.antt =====
-- Lines in a stream of bytes, and the first complete line of a buffer.
use solidbits.Prelude.{
  ℕ, zero, suc, ◌+◌, ◌≡◌, sym, ap, ◌∙◌, Bool, true, false, ◌||◌, none, some, List, [], ◌∷◌, ◌++◌,
  append_assoc, take, drop, ◌==◌, if◌then◌else◌, arith,
}
use solidbits.Net.{
  Conn, Effect, queue_work, close, new_work, memchr, dispatch_loop, try_dispatch_next,
}

-- What the peer sent for these lines: each with its newline.
unfoldable pub frames : List (List ℕ) → List ℕ
frames [] = []
frames (l ∷ ls) = l ++ (b'\n' ∷ frames ls)

abbrev pub IsLine : List ℕ → Type 0
IsLine [] = Unit {0}
IsLine (c ∷ cs) = (c == b'\n' ≡ false) × IsLine cs

abbrev pub AreLines : List (List ℕ) → Type 0
AreLines [] = Unit {0}
AreLines (l ∷ ls) = IsLine l × AreLines ls

pub frames-snoc :
    (ls : List (List ℕ)) (l rest : List ℕ)
    → frames (ls ++ l ∷ []) ++ rest ≡ frames ls ++ (l ++ (b'\n' ∷ rest))
unfolding frames
frames-snoc [] l rest = append_assoc l (b'\n' ∷ []) rest
frames-snoc (x ∷ ls) l rest =
    append_assoc x (b'\n' ∷ frames (ls ++ l ∷ [])) rest
    ∙ ap (λ t. x ++ (b'\n' ∷ t)) (frames-snoc ls l rest)
    ∙ sym (append_assoc x (b'\n' ∷ frames ls) (l ++ (b'\n' ∷ rest)))

pub AreLines-snoc :
    (ls : List (List ℕ)) (l : List ℕ) → AreLines ls → IsLine l → AreLines (ls ++ l ∷ [])
AreLines-snoc [] l h k = (k, tt)
AreLines-snoc (x ∷ ls) l h k = (h.0, AreLines-snoc ls l h.1 k)

-- `memchr` finds the end of the first line.
pub record FirstLine (buf : List ℕ) (llen : ℕ) : Type 0 where
  pub splits : buf ≡ take llen buf ++ (b'\n' ∷ drop (llen + 1) buf)
  pub is_line : IsLine (take llen buf)

pub memchr-FirstLine : (buf : List ℕ) (llen : ℕ) → memchr b'\n' buf ≡ some llen → FirstLine buf llen
unfolding memchr
memchr-FirstLine [] llen h = cc
memchr-FirstLine (x ∷ buf) zero h = ground arith
memchr-FirstLine (x ∷ buf) (suc llen) h = ground (arith, memchr-FirstLine buf llen)

-- What a dispatch amounts to: the first complete line goes to the pool unless a request is in flight,
-- and memory that runs out closes the connection.
unfoldable pub dispatch_first : Bool → Conn → Conn × List Effect
dispatch_first mem c = if c.busy || c.closing then (c, []) else elim (memchr b'\n' c.rbuf) [
  | none ↦ (c, [])
  | some llen ↦
      if mem
      then (
        record c { busy = true; rbuf = drop (llen + 1) c.rbuf },
        queue_work (new_work (take llen c.rbuf)) ∷ [],
      )
      else (record c { closing = true; rbuf = drop (llen + 1) c.rbuf }, close ∷ [])
]

-- The loop of `on_read` hands out one line at most.
pub dispatch_loop_lem :
    (fuel : ℕ) (mem : Bool) (c : Conn) → dispatch_loop (suc fuel) mem c 0 [] ≡ dispatch_first mem c
unfolding dispatch_loop dispatch_first
dispatch_loop_lem zero mem c = ground arith
dispatch_loop_lem (suc fuel) mem c = ground arith

pub try_dispatch_next_lem :
    (mem : Bool) (c : Conn) → c.closing ≡ false → try_dispatch_next mem c ≡ dispatch_first mem c
unfolding try_dispatch_next dispatch_first
try_dispatch_next_lem true c h = ground arith
try_dispatch_next_lem false c h = ground arith
