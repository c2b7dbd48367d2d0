-- ===== src/Popcount/Block.antt =====
-- One round of the 28-byte loop adds the ones of the next 28 bytes.
use solidbits.Prelude.{
  ℕ, zero, suc, ◌+◌, ◌*◌, ◌/◌, ◌^◌, ◌≤◌, ◌≡◌, refl, List, [], ◌∷◌, get_or, take, drop, arith,
}
use solidbits.Popcount.{u32, load32, swar, block_bits}
use solidbits.Popcount.Spec.{
  byte_ones, byte_ones-le, count_ones, count_ones-take, AreBytes, AreBytes-get_or,
}
use solidbits.Popcount.Lanes.{word, swar-word}

-- The multiplication adds the four bytes into the highest one, and nothing overflows it.
gather :
    (a b c d : ℕ)
    → a ≤ 56
    → b ≤ 56
    → c ≤ 56
    → d ≤ 56
    → u32 (u32 (word a b c d) * 0x0101_0101) / 2 ^ 24 ≡ a + b + c + d
gather a b c d ha hb hc hd = omega arith

-- The ones of the byte at an index.
ones_at : List ℕ → ℕ → ℕ
ones_at p i = byte_ones (get_or p i 0)

ones_at-le : (p : List ℕ) (i : ℕ) → ones_at p i ≤ 8
unfolding ones_at
ones_at-le p i = byte_ones-le (get_or p i 0)

swar-load32 :
    (p : List ℕ) (i : ℕ)
    → AreBytes p
    → swar (load32 p i)
      ≡ word (ones_at p i) (ones_at p (i + 1)) (ones_at p (i + 2)) (ones_at p (i + 3))
unfolding ones_at load32
swar-load32 p i h =
    swar-word (get_or p i 0) (get_or p (i + 1) 0) (get_or p (i + 2) 0) (get_or p (i + 3) 0)
      (AreBytes-get_or p i h) (AreBytes-get_or p (i + 1) h) (AreBytes-get_or p (i + 2) h)
      (AreBytes-get_or p (i + 3) h)

-- Every fourth byte of the 28, from byte `i` on.
abbrev column : List ℕ → ℕ → ℕ
column p i =
    ones_at p i
    + ones_at p (i + 4)
    + ones_at p (i + 8)
    + ones_at p (i + 12)
    + ones_at p (i + 16)
    + ones_at p (i + 20)
    + ones_at p (i + 24)

column-le : (p : List ℕ) (i : ℕ) → column p i ≤ 56
column-le p i = omega (
  arith,
  ones_at-le p i,
  ones_at-le p (i + 4),
  ones_at-le p (i + 8),
  ones_at-le p (i + 12),
  ones_at-le p (i + 16),
  ones_at-le p (i + 20),
  ones_at-le p (i + 24),
)

-- The sum of the ones of `n` bytes from an index on.
abbrev sum_at : List ℕ → ℕ → ℕ → ℕ
sum_at p i zero = 0
sum_at p i (suc n) = ones_at p i + sum_at p (suc i) n

get_or-drop : (p : List ℕ) (i : ℕ) → get_or (drop 1 p) i 0 ≡ get_or p (suc i) 0
get_or-drop [] i = refl
get_or-drop (b ∷ p) i = refl

sum_at-drop : (p : List ℕ) (i n : ℕ) → sum_at (drop 1 p) i n ≡ sum_at p (suc i) n
unfolding ones_at
sum_at-drop p i zero = refl
sum_at-drop p i (suc n) = rw (get_or-drop p i, sum_at-drop p (suc i) n)

count_ones-sum_at : (n : ℕ) (p : List ℕ) → count_ones (take n p) ≡ sum_at p 0 n
unfolding ones_at count_ones
count_ones-sum_at zero p = refl
count_ones-sum_at (suc n) p =
    omega (arith, count_ones-take n p, count_ones-sum_at n (drop 1 p), sum_at-drop p 0 n)

abbrev block_words : List ℕ → ℕ
block_words p =
    word (ones_at p 0) (ones_at p 1) (ones_at p 2) (ones_at p 3)
    + word (ones_at p 4) (ones_at p 5) (ones_at p 6) (ones_at p 7)
    + word (ones_at p 8) (ones_at p 9) (ones_at p 10) (ones_at p 11)
    + word (ones_at p 12) (ones_at p 13) (ones_at p 14) (ones_at p 15)
    + word (ones_at p 16) (ones_at p 17) (ones_at p 18) (ones_at p 19)
    + word (ones_at p 20) (ones_at p 21) (ones_at p 22) (ones_at p 23)
    + word (ones_at p 24) (ones_at p 25) (ones_at p 26) (ones_at p 27)

block_words_columns :
    (p : List ℕ) → block_words p ≡ word (column p 0) (column p 1) (column p 2) (column p 3)
block_words_columns p = omega arith

block_sum : (p : List ℕ) → AreBytes p → block_bits p ≡ sum_at p 0 28
unfolding block_bits
block_sum p h =
    rw
      (
        swar-load32 p 0 h,
        swar-load32 p 4 h,
        swar-load32 p 8 h,
        swar-load32 p 12 h,
        swar-load32 p 16 h,
        swar-load32 p 20 h,
        swar-load32 p 24 h,
        block_words_columns p,
      )
      (omega (
        arith,
        gather (column p 0) (column p 1) (column p 2) (column p 3) (column-le p 0) (column-le p 1)
            (column-le p 2) (column-le p 3),
      ))

pub block_bits_lem : (p : List ℕ) → AreBytes p → block_bits p ≡ count_ones (take 28 p)
block_bits_lem p h = omega (arith, block_sum p h, count_ones-sum_at 28 p)
