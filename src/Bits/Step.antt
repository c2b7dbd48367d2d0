-- ===== src/Bits/Step.antt =====
-- The lowest digit of `&`, `|` and `^`: the native operations are a recursion over binary digits which
-- counts down from the first number, and any count that is not below it gives the same.
use Prim.Native.Nat.{digits, bitwise, bit_and-bitwise, bit_or-bitwise, bit_xor-bitwise, differ}
use solidbits.Prelude.{
  ℕ, zero, suc, ◌+◌, ◌*◌, ◌/◌, ◌%◌, ◌≤◌, min, max, bit_and, bit_or, bit_xor, ◌≡◌, refl, arith,
}

-- `past` is the operation once the first number has run out.
module _ (past : ℕ → ℕ) (digit : ℕ → ℕ → ℕ) where
  any_count :
      (bound count x y : ℕ)
      → x ≤ bound
      → x ≤ count
      → digits past digit count x y ≡ bitwise past digit x y
  any_count bound zero zero y below enough = refl
  any_count bound (suc count) zero y below enough = refl
  any_count bound zero (suc x) y below enough = absurd (omega arith)
  any_count zero (suc count) (suc x) y below enough = absurd (omega arith)
  any_count (suc bound) (suc count) (suc x) y below enough =
      let half : ℕ = suc x / 2 in
      omega (
        arith,
        any_count bound count half (y / 2) (omega arith) (omega arith),
        any_count bound x half (y / 2) (omega arith) (omega arith),
      )

  lowest_digit :
      (x y : ℕ)
      → past y ≡ past (y / 2) * 2 + digit 0 (y % 2)
      → bitwise past digit x y ≡ bitwise past digit (x / 2) (y / 2) * 2 + digit (x % 2) (y % 2)
  lowest_digit zero y none_left = omega (arith, none_left)
  lowest_digit (suc x) y none_left =
      omega (arith, any_count x x (suc x / 2) (y / 2) (omega arith) (omega arith))

pub bit_or_step : (x y : ℕ) → bit_or x y ≡ bit_or (x / 2) (y / 2) * 2 + max (x % 2) (y % 2)
bit_or_step x y = simp bit_or-bitwise (lowest_digit (λ r. r) max x y (omega arith))

pub bit_xor_step : (x y : ℕ) → bit_xor x y ≡ bit_xor (x / 2) (y / 2) * 2 + differ (x % 2) (y % 2)
bit_xor_step x y = simp bit_xor-bitwise (lowest_digit (λ r. r) differ x y (omega arith))

pub bit_and_step : (x y : ℕ) → bit_and x y ≡ bit_and (x / 2) (y / 2) * 2 + min (x % 2) (y % 2)
bit_and_step x y = simp bit_and-bitwise (lowest_digit (λ r. 0) min x y (omega arith))
