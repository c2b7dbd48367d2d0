-- ===== src/Parser/Decimal.antt =====
-- The numbers of the replies, read back.
use solidbits.Prelude.{
  Bool, some, length, take-length, ltb-false, ℕ, zero, suc, ◌+◌, ◌-◌, ◌*◌, ◌/◌, ◌%◌, ◌^◌, ◌≡◌, ◌<◌,
  refl, ap, ◌∙◌, sym, List, [], ◌∷◌, ltb, true, false, inl, inr, Bool-cases, ltb→lt, ◌==◌, arith,
}
use solidbits.Prelude.Int.{pos}
use solidbits.Net.{new_work, reply}
use solidbits.Parser.Answer.{answer_result, answer_to}
use solidbits.Parser.Replies.{printed-decimal_line}
use solidbits.Parser.Number.{
  decimal_onto, decimal_line, digits_value, signed_value, atol, is_digit, is_space, clamp_pos,
}

digits_value_digit :
    (d m : ℕ) (acc : List ℕ)
    → d < 10
    → digits_value ((b'0' + d) ∷ acc) m ≡ digits_value acc (m * 10 + d)
unfolding digits_value
digits_value_digit d m acc h =
    let digit : is_digit (b'0' + d) ≡ true = ground arith in
    let value : b'0' + d - b'0' ≡ d = omega arith in rw (digit, value)

first_digit :
    (n : ℕ) (acc : List ℕ) → n < 10 → digits_value ((b'0' + n) ∷ acc) 0 ≡ digits_value acc n
first_digit n acc h =
    let sum : 0 * 10 + n ≡ n = omega arith in
    digits_value_digit n 0 acc h ∙ ap (digits_value acc) sum

power_step : (fuel n : ℕ) → n < 10 ^ suc fuel → n / 10 < 10 ^ fuel
power_step fuel n h = omega arith

-- Reading the digits of `n` before `acc` amounts to reading `acc` with `n` at hand.
decimal_onto_lem :
    (fuel n : ℕ) (acc : List ℕ)
    → n < 10 ^ suc fuel
    → digits_value (decimal_onto (suc fuel) n acc) 0 ≡ digits_value acc n
unfolding decimal_onto
decimal_onto_lem zero n acc h =
    let small : ltb n 10 ≡ true = ground arith in rw small (first_digit n acc (omega arith))
decimal_onto_lem (suc fuel) n acc h = elim (Bool-cases (ltb n 10)) [
  | inl small ↦ rw small (first_digit n acc (ltb→lt _ _ small))
  | inr large ↦
      let whole : n / 10 * 10 + n % 10 ≡ n = omega arith in
      rw large (
        decimal_onto_lem fuel (n / 10) ((b'0' + n % 10) ∷ acc) (power_step (suc fuel) n h)
        ∙ digits_value_digit (n % 10) (n / 10) acc (omega arith)
        ∙ ap (digits_value acc) whole)
]

-- The digits begin with one.
pub decimal_onto_head :
    (fuel n : ℕ) (acc : List ℕ)
    → n < 10 ^ suc fuel
    → (d : ℕ) × (rest : List ℕ) × (d < 10) × (decimal_onto (suc fuel) n acc ≡ (b'0' + d) ∷ rest)
unfolding decimal_onto
decimal_onto_head zero n acc h =
    let small : ltb n 10 ≡ true = ground arith in (n, acc, omega arith, rw small)
decimal_onto_head (suc fuel) n acc h = elim (Bool-cases (ltb n 10)) [
  | inl small ↦ (n, acc, ltb→lt _ _ small, rw small)
  | inr large ↦
      let (d, rest, lt, e) =
        decimal_onto_head fuel (n / 10) ((b'0' + n % 10) ∷ acc) (power_step (suc fuel) n h) in
      (d, rest, lt, rw large e)
]

atol_digit :
    (d : ℕ) (cs : List ℕ)
    → d < 10
    → atol ((b'0' + d) ∷ cs) ≡ clamp_pos (digits_value ((b'0' + d) ∷ cs) 0)
unfolding atol signed_value
atol_digit d cs h =
    let no_space : is_space (b'0' + d) ≡ false = ground arith in
    let no_minus : (b'0' + d == b'-') ≡ false = ground arith in
    let no_plus : (b'0' + d == b'+') ≡ false = ground arith in rw (no_space, no_minus, no_plus)

-- A number before a text that is not read on from.
pub atol-decimal_onto :
    (n : ℕ) (acc : List ℕ)
    → n < 2 ^ 63
    → digits_value acc n ≡ n
    → atol (decimal_onto 20 n acc) ≡ pos n
atol-decimal_onto n acc h stop =
    let big : n < 10 ^ 20 = omega arith in
    let (d, rest, lt, e) = decimal_onto_head 19 n acc big in
    let fits : ltb n (2 ^ 63) ≡ true = ground arith in
    ap atol e
    ∙ atol_digit d rest lt
    ∙ ap (λ cs. clamp_pos (digits_value cs 0)) (sym e)
    ∙ ap clamp_pos (decimal_onto_lem 19 n acc big ∙ stop)
    ∙ rw fits refl

atol-decimal_line : (n : ℕ) → n < 2 ^ 63 → atol (decimal_line n) ≡ pos n
unfolding decimal_line digits_value
atol-decimal_line n h = atol-decimal_onto n (b'\n' ∷ []) h refl

decimal_line_some : (n : ℕ) → n < 10 ^ 20 → (length (decimal_line n) == 0) ≡ false
unfolding decimal_line
decimal_line_some n h =
    let (d, rest, lt, e) = decimal_onto_head 19 n (b'\n' ∷ []) h in rw e (ground arith)

-- The whole line of a number goes into a fresh response.
response_lem :
    (realloc : Bool) (line : List ℕ) (n : ℕ)
    → n < 10 ^ 14
    → (answer_to realloc (new_work line) (answer_result (some n))).resp_buf ≡ decimal_line n
unfolding answer_to answer_result reply
response_lem realloc line n small =
    let (short, whole) = printed-decimal_line n small in
    let bytes = decimal_line_some n (omega arith) in
    let fits : ltb 64 (0 + length (decimal_line n)) ≡ false = ltb-false _ _ (omega arith) in
    rw (whole, bytes, fits) (take-length (length (decimal_line n)) (decimal_line n) (omega arith))

-- The response to a command that has run, whose result is below 10^14, reads back as that result: the
-- number, printed into the 16 bytes of `buf` and handed to `reply`, arrives whole, and no memory is
-- asked for.
pub atol-answer_to :
    (realloc : Bool) (line : List ℕ) (n : ℕ)
    → n < 10 ^ 14
    → atol (answer_to realloc (new_work line) (answer_result (some n))).resp_buf ≡ pos n
atol-answer_to realloc line n small =
    ap atol (response_lem realloc line n small) ∙ atol-decimal_line n (omega arith)
