-- ===== src/Server/Slots.antt =====
-- How many of several keys have a descriptor.
use solidbits.Prelude.{
  ℕ, zero, suc, ◌+◌, ◌≡◌, ◌≤◌, ◌<◌, refl, inl, inr, false, Bool-cases, ==_iff, ◌==◌, Option, none,
  some, arith,
}
use solidbits.Store.{update}

abbrev one_if : Option ℕ → ℕ
one_if none = 0
one_if (some dt) = 1

-- Of the first `n`.
unfoldable pub count_open : (ℕ → Option ℕ) → ℕ → ℕ
count_open slot zero = 0
count_open slot (suc n) = one_if (slot n) + count_open slot n

one_if_le : (o : Option ℕ) → one_if o ≤ 1
one_if_le none = omega arith
one_if_le (some dt) = omega arith

pub count_open_le : (slot : ℕ → Option ℕ) (n : ℕ) → count_open slot n ≤ n
unfolding count_open
count_open_le slot zero = omega arith
count_open_le slot (suc n) = omega (arith, one_if_le (slot n), count_open_le slot n)

-- One has none.
pub count_open_lt : (slot : ℕ → Option ℕ) (n k : ℕ) → k < n → slot k ≡ none → count_open slot n < n
unfolding count_open
count_open_lt slot zero k h e = absurd (omega arith)
count_open_lt slot (suc n) k h e = elim (Bool-cases (k == n)) [
  | inl at_end ↦ ground (arith, count_open_le slot n)
  | inr before ↦ omega (arith, one_if_le (slot n), count_open_lt slot n k (ground arith) e)
]

count_open-update_past :
    (slot : ℕ → Option ℕ) (n k : ℕ) (o : Option ℕ)
    → n ≤ k
    → count_open (update slot k o) n ≡ count_open slot n
unfolding count_open
count_open-update_past slot zero k o h = refl
count_open-update_past slot (suc n) k o h =
    let past : (k == n) ≡ false = ground arith in
    rw (past, count_open-update_past slot n k o (omega arith)) refl

-- It gets one.
pub count_open-update :
    (slot : ℕ → Option ℕ) (n k dt : ℕ)
    → k < n
    → slot k ≡ none
    → count_open (update slot k (some dt)) n ≡ count_open slot n + 1
unfolding count_open
count_open-update slot zero k dt h e = absurd (omega arith)
count_open-update slot (suc n) k dt h e = elim (Bool-cases (k == n)) [
  | inl at_end ↦
      let last : k ≡ n = (==_iff _ _).0 at_end in
      ground (arith, count_open-update_past slot n k (some dt))
  | inr before ↦ rw before (omega (arith, count_open-update slot n k dt (ground arith) e))
]
