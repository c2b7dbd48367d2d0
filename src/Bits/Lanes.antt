-- ===== src/Bits/Lanes.antt =====
-- An operation that works digit by digit works lane by lane: on a word that is put together from
-- two fields it is the operation on each field.
use Prim.Native.Nat.{differ}
use native.Mathlib.Nat.{pow-suc}
use solidbits.Prelude.{
  ℕ, zero, suc, ◌+◌, ◌*◌, ◌/◌, ◌%◌, ◌^◌, ◌<◌, min, max, bit_and, bit_or, bit_xor, ◌≡◌, refl, ap,
  ◌∙◌, arith,
}
use solidbits.Bits.Step.{bit_and_step, bit_or_step, bit_xor_step}

-- A field that is moved up by one more digit.
lane_doubled : (field k : ℕ) → field * 2 ^ suc k ≡ field * 2 ^ k + field * 2 ^ k
lane_doubled field k = ap (λ w. field * w) (pow-suc 2 k) ∙ omega arith

module _ (op digit : ℕ → ℕ → ℕ)
    (op_step : (a b : ℕ) → op a b ≡ op (a / 2) (b / 2) * 2 + digit (a % 2) (b % 2))
    (op_zero : op 0 0 ≡ 0) where
  pub op-lanes :
      (k x y a b : ℕ)
      → a < 2 ^ k
      → b < 2 ^ k
      → op (x * 2 ^ k + a) (y * 2 ^ k + b) ≡ op x y * 2 ^ k + op a b
  op-lanes zero x y a b p q = ground (arith, op_zero)
  op-lanes (suc k) x y a b p q = ground (
    arith,
    op_step (x * 2 ^ suc k + a) (y * 2 ^ suc k + b),
    op_step a b,
    lane_doubled x k,
    lane_doubled y k,
    lane_doubled (op x y) k,
    pow-suc 2 k,
    op-lanes k x y (a / 2) (b / 2) (omega (arith, pow-suc 2 k)) (omega (arith, pow-suc 2 k)),
  )

  -- Digits of one bit give results of as many bits as the arguments.
  pub op-lt :
      ((x y : ℕ) → x < 2 → y < 2 → digit x y < 2)
      → (k a b : ℕ) → a < 2 ^ k
      → b < 2 ^ k
      → op a b < 2 ^ k
  op-lt small zero a b p q = ground (arith, op_zero)
  op-lt small (suc k) a b p q = omega (
    arith,
    op_step a b,
    pow-suc 2 k,
    small (a % 2) (b % 2) (omega arith) (omega arith),
    op-lt small k (a / 2) (b / 2) (omega (arith, pow-suc 2 k)) (omega (arith, pow-suc 2 k)),
  )

pub bit_and-lanes :
    (k x y a b : ℕ)
    → a < 2 ^ k
    → b < 2 ^ k
    → bit_and (x * 2 ^ k + a) (y * 2 ^ k + b) ≡ bit_and x y * 2 ^ k + bit_and a b
bit_and-lanes = op-lanes bit_and min bit_and_step refl

pub bit_or-lanes :
    (k x y a b : ℕ)
    → a < 2 ^ k
    → b < 2 ^ k
    → bit_or (x * 2 ^ k + a) (y * 2 ^ k + b) ≡ bit_or x y * 2 ^ k + bit_or a b
bit_or-lanes = op-lanes bit_or max bit_or_step refl

pub bit_xor-lanes :
    (k x y a b : ℕ)
    → a < 2 ^ k
    → b < 2 ^ k
    → bit_xor (x * 2 ^ k + a) (y * 2 ^ k + b) ≡ bit_xor x y * 2 ^ k + bit_xor a b
bit_xor-lanes = op-lanes bit_xor differ bit_xor_step refl

differ-lt : (x y : ℕ) → x < 2 → y < 2 → differ x y < 2
differ-lt zero y p q = q
differ-lt (suc x) zero p q = p
differ-lt (suc x) (suc y) p q = differ-lt x y (omega arith) (omega arith)

pub bit_and-lt : (k a b : ℕ) → a < 2 ^ k → b < 2 ^ k → bit_and a b < 2 ^ k
bit_and-lt = op-lt bit_and min bit_and_step refl (λ x y p q. omega arith)

pub bit_or-lt : (k a b : ℕ) → a < 2 ^ k → b < 2 ^ k → bit_or a b < 2 ^ k
bit_or-lt = op-lt bit_or max bit_or_step refl (λ x y p q. omega arith)

pub bit_xor-lt : (k a b : ℕ) → a < 2 ^ k → b < 2 ^ k → bit_xor a b < 2 ^ k
bit_xor-lt = op-lt bit_xor differ bit_xor_step refl differ-lt
