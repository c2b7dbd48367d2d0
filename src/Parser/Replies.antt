-- ===== src/Parser/Replies.antt =====
-- What `parse_and_execute` can answer, on every branch.
use Prim.Native.String.{String}
use solidbits.Prelude.{
  ◌<◌, ◌^◌, ◌⊎◌, lt→ltb, ltb→lt, ℕ, zero, suc, ◌+◌, ◌%◌, ◌/◌, ◌≡◌, ◌≤◌, refl, subst, ◌∙◌, inl, inr,
  Option, none, some, List, [], ◌∷◌, ◌++◌, append_assoc, length, take, take-length, ltb, ◌==◌, true,
  false, Bool, Bool-cases, not, ◌&&◌, if◌then◌else◌, arith,
}
use solidbits.Store.{Store, M, pure, ◌>>=◌}
use solidbits.Net.Framing.{IsLine}
use solidbits.Parser.Number.{decimal_onto, decimal_line, printed, buf_size}
use solidbits.Parser.Answer.{Answer, no_answer, answer, answer_result, codes, line_of}
use solidbits.Prepare.{Opened, ready, failure, not_found}
use solidbits.Parser.Cases.{release_all_descs, finish}

-- A single line with its newline, all of whose bytes are there.
abbrev pub EndsLine : List ℕ → Type 0
EndsLine bs = (l : List ℕ) × (bs ≡ l ++ b'\n' ∷ []) × IsLine l

abbrev pub IsAnswerLine : Answer → Type 0
IsAnswerLine no_answer = ⊥
IsAnswerLine (answer s len) = (len ≤ length s) × EndsLine (take len s)

-- The number of a result that does not fit in `buf` with its newline.
abbrev pub IsLarge : Answer → Type 0
IsLarge a = (n : ℕ) × (10 ^ 14 ≤ n) × (a ≡ answer_result (some n))

abbrev pub IsReply : Answer → Type 0
IsReply a = IsAnswerLine a ⊎ IsLarge a

-- Every answer of a command is a line, or too large a number.
abbrev pub AnswersLine : M Answer → Type 0
AnswersLine m = (s t : Store) (a : Answer) → m s ≡ some (a, t) → IsReply a

pub Replies-pure : (a : Answer) → IsReply a → AnswersLine (pure a)
Replies-pure a p s t b e = let same : a ≡ b = cc in subst IsReply same p

pub AnswersLine-pure : (a : Answer) → IsAnswerLine a → AnswersLine (pure a)
AnswersLine-pure a p = Replies-pure a (inl p)

after_run :
    {A : Type 0} (r : Option (A × Store)) (k : A → M Answer) (t : Store) (b : Answer)
    → ((a : A) → AnswersLine (k a))
    → (elim r [ none ↦ none | some (a, u) ↦ k a u ]) ≡ some (b, t)
    → IsReply b
after_run none k t b h e = cc
after_run (some (a, u)) k t b h e = h a u t b e

pub AnswersLine-bind :
    {A : Type 0} (m : M A) (k : A → M Answer)
    → ((a : A) → AnswersLine (k a))
    → AnswersLine (m >>= k)
AnswersLine-bind m k h s t b e = after_run (m s) k t b h e

pub AnswersLine-if :
    (b : Bool) (m n : M Answer) → AnswersLine m → AnswersLine n → AnswersLine (if b then m else n)
AnswersLine-if true m n h k = h
AnswersLine-if false m n h k = k

pub AnswersLine-opened :
    (r : Opened) (m n : M Answer) (k : ℕ → M Answer)
    → AnswersLine m
    → AnswersLine n
    → ((dt : ℕ) → AnswersLine (k dt))
    → AnswersLine (elim r [ failure ↦ m | not_found ↦ n | ready dt ↦ k dt ])
AnswersLine-opened failure m n k x y z = x
AnswersLine-opened not_found m n k x y z = y
AnswersLine-opened (ready dt) m n k x y z = z dt

pub AnswersLine-option :
    {A : Type 0} (r : Option A) (m : M Answer) (k : A → M Answer)
    → AnswersLine m
    → ((a : A) → AnswersLine (k a))
    → AnswersLine (elim r [ none ↦ m | some a ↦ k a ])
AnswersLine-option none m k x y = x
AnswersLine-option (some a) m k x y = y a

abbrev pub no_newline : List ℕ → Bool
no_newline [] = true
no_newline (c ∷ cs) = not (c == b'\n') && no_newline cs

pub no_newline-IsLine : (l : List ℕ) → no_newline l ≡ true → IsLine l
no_newline-IsLine [] h = tt
no_newline-IsLine (c ∷ cs) h = (ground arith, no_newline-IsLine cs (ground arith))

-- A literal that is handed over whole.
pub literal :
    (s : String) (len : ℕ)
    → no_newline (codes s) ≡ true
    → len ≡ length (line_of s)
    → IsAnswerLine (answer (line_of s) len)
literal s len h e =
    let whole : take len (line_of s) ≡ line_of s = take-length len (line_of s) (omega (arith, e)) in
    (omega (arith, e), (codes s, whole, no_newline-IsLine (codes s) h))

IsLine-++ : (l m : List ℕ) → IsLine l → IsLine m → IsLine (l ++ m)
IsLine-++ [] m h k = k
IsLine-++ (c ∷ l) m h k = (h.0, IsLine-++ l m h.1 k)

decimal_onto-IsLine :
    (fuel n : ℕ) (acc : List ℕ) → (l : List ℕ) × (decimal_onto fuel n acc ≡ l ++ acc) × IsLine l
unfolding decimal_onto
decimal_onto-IsLine zero n acc = ([], refl, tt)
decimal_onto-IsLine (suc fuel) n acc = elim (Bool-cases (ltb n 10)) [
  | inl small ↦ ((b'0' + n) ∷ [], rw small, (ground arith, tt))
  | inr large ↦
      let (l, e, h) = decimal_onto-IsLine fuel (n / 10) ((b'0' + n % 10) ∷ acc) in
      (l ++ (b'0' + n % 10) ∷ [], rw (large, append_assoc) e, IsLine-++ l _ h (ground arith, tt))
]

length-decimal_onto :
    (fuel k n : ℕ) (acc : List ℕ)
    → n < 10 ^ suc k
    → length (decimal_onto fuel n acc) ≤ suc k + length acc
unfolding decimal_onto
length-decimal_onto zero k n acc h = omega arith
length-decimal_onto (suc fuel) zero n acc h =
    let small : ltb n 10 ≡ true = lt→ltb _ _ (omega arith) in rw small (omega arith)
length-decimal_onto (suc fuel) (suc k) n acc h = elim (Bool-cases (ltb n 10)) [
  | inl small ↦ rw small (omega arith)
  | inr large ↦
      rw large
        (omega (arith, length-decimal_onto fuel k (n / 10) ((b'0' + n % 10) ∷ acc) (omega arith)))
]

-- Fourteen digits and the newline fit in `buf`.
pub printed-decimal_line :
    (n : ℕ)
    → n < 10 ^ 14
    → (length (decimal_line n) ≤ 15) × (printed buf_size (decimal_line n) ≡ decimal_line n)
unfolding decimal_line printed
printed-decimal_line n h =
    let short : length (decimal_line n) ≤ 15 = length-decimal_onto 20 13 n (b'\n' ∷ []) h in
    (short, rw (lt→ltb (length (decimal_line n)) buf_size (omega arith)) refl)

number_line : (n : ℕ) → n < 10 ^ 14 → IsAnswerLine (answer_result (some n))
unfolding decimal_line answer_result
number_line n small =
    let (l, e, h) = decimal_onto-IsLine 20 n (b'\n' ∷ []) in
    let fits = (printed-decimal_line n small).1 in
    rw fits (omega arith, (l, take-length _ (decimal_line n) (omega arith) ∙ e, h))

answer_result-IsReply : (r : Option ℕ) → IsReply (answer_result r)
unfolding answer_result
answer_result-IsReply none = inl (literal "ERR:FILE ACCESS FAILED" 23 refl refl)
answer_result-IsReply (some n) = elim (Bool-cases (ltb n (10 ^ 14))) [
  | inl small ↦ inl (number_line n (ltb→lt _ _ small))
  | inr large ↦ inr (n, ground (arith, large), refl)
]

pub finish_line : (dts : List (Option ℕ)) (r : Option ℕ) → AnswersLine (finish dts r)
unfolding finish
finish_line dts r =
    AnswersLine-bind (release_all_descs dts) _
      (λ x. Replies-pure (answer_result r) (answer_result-IsReply r))
