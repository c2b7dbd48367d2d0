-- ===== src/Helper.antt =====
-- src/helper.c, strupr, which nothing calls, and time2string, which file.c calls for its log. A string
-- is the list of its bytes up to the terminator.
use solidbits.Prelude.{
  ℕ, suc, ◌-◌, ◌/◌, ◌≡◌, refl, ap, ap₂, ◌&&◌, List, [], ◌∷◌, length, leb, if◌then◌else◌, arith,
}

-- `toupper` in the C locale.
unfoldable pub to_upper : ℕ → ℕ
to_upper c = if leb b'a' c && leb c b'z' then c - 32 else c

unfoldable pub strupr : List ℕ → List ℕ
unfolding to_upper
strupr [] = []
strupr (c ∷ str) = to_upper c ∷ strupr str

-- The buffer has 20 bytes; `localtime` and `strftime`, with that size, are given.
module _ {Tm : Type 0} (localtime : ℕ → Tm) (strftime : ℕ → Tm → List ℕ) where
  unfoldable pub time2string : ℕ → List ℕ
  time2string us = strftime 20 (localtime (us / 1000000))

to_upper_twice : (c : ℕ) → to_upper (to_upper c) ≡ to_upper c
unfolding to_upper
to_upper_twice c = ground arith

-- What `strupr` has written it leaves alone, and it writes in place.
pub strupr_lem :
    (str : List ℕ) → (strupr (strupr str) ≡ strupr str) × (length (strupr str) ≡ length str)
unfolding strupr
strupr_lem [] = (refl, refl)
strupr_lem (c ∷ str) =
    let (same, long) = strupr_lem str in (ap₂ (λ x xs. x ∷ xs) (to_upper_twice c) same, ap suc long)
