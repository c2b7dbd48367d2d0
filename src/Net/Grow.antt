-- ===== src/Net/Grow.antt =====
-- The doubling loops of `reply` and `on_read` end, and end at a capacity that is enough.
use solidbits.Prelude.{
  ℕ, zero, suc, ◌+◌, ◌*◌, ◌≤◌, ◌<◌, ◌≡◌, refl, inl, inr, ◌⊎◌, ltb, ltb→lt, Bool-cases, arith,
}
use solidbits.Net.{double_until}

-- The result is enough, no smaller than the old capacity, and the old one or below twice what was needed.
pub record Grown (ncap need result : ℕ) : Type 0 where
  pub enough : need ≤ result
  pub keeps : ncap ≤ result
  pub tight : (result ≡ ncap) ⊎ (result < 2 * need)

pub double_until_stops : (fuel ncap need : ℕ) → need ≤ ncap → double_until fuel ncap need ≡ ncap
unfolding double_until
double_until_stops zero ncap need h = refl
double_until_stops (suc fuel) ncap need h = ground arith

-- From a capacity above 0, with fuel for the bytes that are missing, the doubling loop ends at a
-- capacity that is enough, not below the old one, and below twice the need if it had to grow.
pub double_until_lem :
    (fuel ncap need : ℕ)
    → 0 < ncap
    → need ≤ ncap + fuel
    → Grown ncap need (double_until fuel ncap need)
unfolding double_until
double_until_lem zero ncap need pos h = record {
  enough = omega arith;
  keeps = omega arith;
  tight = inl refl;
}
double_until_lem (suc fuel) ncap need pos h = elim (Bool-cases (ltb ncap need)) [
  | inl e ↦
      let ih = double_until_lem fuel (ncap * 2) need (omega arith) (ground arith) in
      rw e (record {
        enough = ih.enough;
        keeps = omega (arith, ih.keeps);
        tight = ground (arith, ih.tight, ltb→lt ncap need e);
      })
  | inr e ↦ rw e (record { enough = ground arith; keeps = omega arith; tight = inl refl })
]
