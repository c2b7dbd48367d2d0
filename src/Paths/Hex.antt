-- ===== src/Paths/Hex.antt =====
-- Different hashes have different paths.
use native.Mathlib.Nat.{zero-add, suc-add}
use solidbits.Prelude.{
  ℕ, zero, suc, ◌+◌, ◌-◌, ◌*◌, ◌/◌, ◌%◌, ◌^◌, ◌≡◌, ◌<◌, refl, sym, ap, ◌∙◌, List, [], ◌∷◌, ◌++◌,
  take, drop, length, append_assoc, ltb, if◌then◌else◌, arith,
}
use solidbits.Paths.{hex_digit, hex_digits, key_path}

-- Reading the digits back.
abbrev digit_value : ℕ → ℕ
digit_value c = if ltb c 58 then c - b'0' else c - 87

abbrev hex_value : List ℕ → ℕ → ℕ
hex_value [] n = n
hex_value (c ∷ cs) n = hex_value cs (n * 16 + digit_value c)

digit_value-hex_digit : (d : ℕ) → d < 16 → digit_value (hex_digit d) ≡ d
unfolding hex_digit
digit_value-hex_digit d h = ground arith

hex_value-snoc :
    (cs : List ℕ) (c n : ℕ) → hex_value (cs ++ c ∷ []) n ≡ hex_value cs n * 16 + digit_value c
hex_value-snoc [] c n = refl
hex_value-snoc (x ∷ cs) c n = hex_value-snoc cs c (n * 16 + digit_value x)

hex_value-hex_digits : (k n : ℕ) → n < 16 ^ k → hex_value (hex_digits k n) 0 ≡ n
unfolding hex_digits
hex_value-hex_digits zero n h = omega arith
hex_value-hex_digits (suc k) n h =
    hex_value-snoc (hex_digits k (n / 16)) (hex_digit (n % 16)) 0
    ∙ omega (
      arith,
      hex_value-hex_digits k (n / 16) (omega arith),
      digit_value-hex_digit (n % 16) (omega arith),
    )

-- The digits in a path.
abbrev digits_in : ℕ → List ℕ → List ℕ
digits_in n path = take 2 (drop (n + 1) path) ++ (take 2 (drop (n + 4) path) ++ drop (n + 7) path)

drop-dir : (dir rest : List ℕ) (k : ℕ) → drop (length dir + k) (dir ++ rest) ≡ drop k rest
drop-dir [] rest k = rw zero-add
drop-dir (c ∷ dir) rest k = rw (suc-add (length dir) k) (drop-dir dir rest k)

digits_in-parts :
    (dir rest : List ℕ) (a b c d : ℕ)
    → digits_in (length dir) (((dir ++ b'/' ∷ a ∷ b ∷ []) ++ b'/' ∷ c ∷ d ∷ []) ++ b'/' ∷ rest)
      ≡ a ∷ b ∷ c ∷ d ∷ rest
digits_in-parts dir rest a b c d =
    let tail : List ℕ = b'/' ∷ a ∷ b ∷ b'/' ∷ c ∷ d ∷ b'/' ∷ rest in
    let flat : ((dir ++ b'/' ∷ a ∷ b ∷ []) ++ b'/' ∷ c ∷ d ∷ []) ++ b'/' ∷ rest ≡ dir ++ tail =
      simp append_assoc in
    ap (digits_in (length dir)) flat
    ∙ rw (drop-dir dir tail 1, drop-dir dir tail 4, drop-dir dir tail 7)

digits_in-key_path :
    (dir : List ℕ) (hash : ℕ) → digits_in (length dir) (key_path dir hash) ≡ hex_digits 16 hash
unfolding hex_digits
digits_in-key_path dir hash = digits_in-parts dir _ _ _ _ _

-- For one directory, two hashes below 2^64 that lead to the same path are equal.
pub key_path_injective :
    (dir : List ℕ) (a b : ℕ) → a < 2 ^ 64 → b < 2 ^ 64 → key_path dir a ≡ key_path dir b → a ≡ b
key_path_injective dir a b ha hb e =
    let same : hex_digits 16 a ≡ hex_digits 16 b =
      sym (digits_in-key_path dir a) ∙ ap (digits_in (length dir)) e ∙ digits_in-key_path dir b in
    sym (hex_value-hex_digits 16 a ha)
    ∙ ap (λ cs. hex_value cs 0) same
    ∙ hex_value-hex_digits 16 b hb
