-- ===== src/Popcount/Spec.antt =====
-- What `redisPopcount` is measured against: the set bits of a byte and of a string of bytes.
use solidbits.Prelude.{
  ℕ, ◌+◌, ◌/◌, ◌%◌, ◌≤◌, ◌<◌, ◌≡◌, get_or, take, drop, zero, suc, List, [], ◌∷◌, ◌++◌, arith,
}

unfoldable pub byte_ones : ℕ → ℕ
byte_ones b =
    b % 2 + b / 2 % 2 + b / 4 % 2 + b / 8 % 2 + b / 16 % 2 + b / 32 % 2 + b / 64 % 2 + b / 128 % 2

pub byte_ones-le : (b : ℕ) → byte_ones b ≤ 8
unfolding byte_ones
byte_ones-le b = omega arith

unfoldable pub count_ones : List ℕ → ℕ
count_ones [] = 0
count_ones (b ∷ bs) = byte_ones b + count_ones bs

pub count_ones-append : (xs ys : List ℕ) → count_ones (xs ++ ys) ≡ count_ones xs + count_ones ys
unfolding count_ones
count_ones-append [] ys = omega arith
count_ones-append (x ∷ xs) ys = omega (arith, count_ones-append xs ys)

abbrev pub AreBytes : List ℕ → Type 0
AreBytes [] = Unit {0}
AreBytes (b ∷ bs) = (b < 256) × AreBytes bs

pub AreBytes-get_or : (bs : List ℕ) (i : ℕ) → AreBytes bs → get_or bs i 0 < 256
AreBytes-get_or [] i h = omega arith
AreBytes-get_or (b ∷ bs) zero h = h.0
AreBytes-get_or (b ∷ bs) (suc i) h = AreBytes-get_or bs i h.1

pub AreBytes-take : (n : ℕ) (bs : List ℕ) → AreBytes bs → AreBytes (take n bs)
AreBytes-take zero bs h = tt
AreBytes-take (suc n) [] h = tt
AreBytes-take (suc n) (b ∷ bs) h = (h.0, AreBytes-take n bs h.1)

pub AreBytes-drop : (n : ℕ) (bs : List ℕ) → AreBytes bs → AreBytes (drop n bs)
AreBytes-drop zero bs h = h
AreBytes-drop (suc n) [] h = tt
AreBytes-drop (suc n) (b ∷ bs) h = AreBytes-drop n bs h.1

pub AreBytes-append : (xs ys : List ℕ) → AreBytes xs → AreBytes ys → AreBytes (xs ++ ys)
AreBytes-append [] ys h k = k
AreBytes-append (x ∷ xs) ys h k = (h.0, AreBytes-append xs ys h.1 k)

-- A byte past the end is 0 and has no ones, so the equation holds of the empty string too.
pub count_ones-take :
    (n : ℕ) (bs : List ℕ)
    → count_ones (take (suc n) bs) ≡ byte_ones (get_or bs 0 0) + count_ones (take n (drop 1 bs))
unfolding count_ones byte_ones
count_ones-take zero [] = omega arith
count_ones-take (suc n) [] = omega arith
count_ones-take n (b ∷ bs) = omega arith
