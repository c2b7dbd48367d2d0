-- ===== src/Paths/Lengths.antt =====
-- How long the paths of a key and of its two directories are.
use solidbits.Prelude.{
  ℕ, zero, suc, ◌+◌, ◌/◌, ◌%◌, ◌≡◌, refl, ◌∙◌, List, [], ◌∷◌, take, drop, length, ◌≤◌, ◌<◌,
  length-append, length-take, length-drop, arith,
}
use solidbits.Paths.{filename_size, key_path, level_one, level_two, hex_digits, hex_digit}

length-hex_digits : (k n : ℕ) → length (hex_digits k n) ≡ k
unfolding hex_digits
length-hex_digits zero n = refl
length-hex_digits (suc k) n =
    length-append (hex_digits k (n / 16)) (hex_digit (n % 16) ∷ [])
    ∙ ground (arith, length-hex_digits k (n / 16))

pub length-level_one : (dir : List ℕ) (hash : ℕ) → length (level_one dir hash) ≡ length dir + 3
length-level_one dir hash =
    let hex : List ℕ = hex_digits 16 hash in
    omega
      (arith, length-hex_digits 16 hash, length-append dir (b'/' ∷ take 2 hex), length-take 2 hex)

pub length-level_two : (dir : List ℕ) (hash : ℕ) → length (level_two dir hash) ≡ length dir + 6
length-level_two dir hash =
    let hex : List ℕ = hex_digits 16 hash in
    omega (
      arith,
      length-hex_digits 16 hash,
      length-level_one dir hash,
      length-append (level_one dir hash) (b'/' ∷ take 2 (drop 2 hex)),
      length-take 2 (drop 2 hex),
      length-drop 2 hex,
    )

pub length-key_path : (dir : List ℕ) (hash : ℕ) → length (key_path dir hash) ≡ length dir + 19
length-key_path dir hash =
    let hex : List ℕ = hex_digits 16 hash in
    omega (
      arith,
      length-hex_digits 16 hash,
      length-level_two dir hash,
      length-append (level_two dir hash) (b'/' ∷ drop 4 hex),
      length-drop 4 hex,
    )

-- With a null byte the path of a key fits in `filename`.
pub key_path_fits :
    (dir : List ℕ) (hash : ℕ) → length dir ≤ 236 → length (key_path dir hash) < filename_size
key_path_fits dir hash h = omega (arith, length-key_path dir hash)
