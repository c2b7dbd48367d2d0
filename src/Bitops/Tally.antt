-- ===== src/Bitops/Tally.antt =====
-- The set bits of a range of bytes, counted bit by bit.
use solidbits.Prelude.{
  ℕ, zero, suc, ◌+◌, ◌-◌, ◌*◌, ◌/◌, ◌%◌, ◌<◌, ◌≡◌, refl, sym, false, ap, ◌∙◌, List, [], ◌∷◌, take,
  drop, drop-add, get_or, arith,
}
use solidbits.Prelude.Int.{pos, ltb_ℤ}
use solidbits.Popcount.Spec.{byte_ones, count_ones, count_ones-take}
use solidbits.Bitops.Bit.{bit_at, bit_of}
use solidbits.Bitops.Count.{ones_between}

-- The sum of `n` bits from `i` on.
unfoldable pub sum_bits : (ℕ → ℕ) → ℕ → ℕ → ℕ
sum_bits bits i zero = 0
sum_bits bits i (suc n) = bits i + sum_bits bits (i + 1) n

bit_at-eight :
    (bs : List ℕ) (o j : ℕ) → j < 8 → bit_at bs (8 * o + j) ≡ bit_of (get_or bs o 0) (7 - j)
unfolding bit_at
bit_at-eight bs o j h =
    let at : (8 * o + j) / 8 ≡ o = omega arith in
    let rest : (8 * o + j) % 8 ≡ j = omega arith in rw (at, rest)

byte_ones-bit_of :
    (b : ℕ)
    → byte_ones b
      ≡ bit_of b 7
        + bit_of b 6
        + bit_of b 5
        + bit_of b 4
        + bit_of b 3
        + bit_of b 2
        + bit_of b 1
        + bit_of b 0
unfolding byte_ones bit_of
byte_ones-bit_of b = omega arith

-- Eight bits and those behind them.
sum_bits-eight :
    (bits : ℕ → ℕ) (i n : ℕ)
    → sum_bits bits i (8 + n)
      ≡ bits i
        + bits (i + 1)
        + bits (i + 2)
        + bits (i + 3)
        + bits (i + 4)
        + bits (i + 5)
        + bits (i + 6)
        + bits (i + 7)
        + sum_bits bits (i + 8) n
unfolding sum_bits
sum_bits-eight bits i n =
    let eight : 8 + n ≡ suc (suc (suc (suc (suc (suc (suc (suc n))))))) = omega arith in
    ap (sum_bits bits i) eight ∙ grind arith

-- The bits of one byte, and those behind it.
sum_bits-byte :
    (bs : List ℕ) (o n : ℕ)
    → sum_bits (bit_at bs) (8 * o) (8 * suc n)
      ≡ byte_ones (get_or bs o 0) + sum_bits (bit_at bs) (8 * (o + 1)) (8 * n)
sum_bits-byte bs o n =
    let more : 8 * suc n ≡ 8 + 8 * n = omega arith in
    let next : 8 * o + 8 ≡ 8 * (o + 1) = omega arith in
    let first : bit_at bs (8 * o) ≡ bit_of (get_or bs o 0) 7 =
      ap (bit_at bs) (omega arith) ∙ bit_at-eight bs o 0 (omega arith) in
    ap (sum_bits (bit_at bs) (8 * o)) more
    ∙ sum_bits-eight (bit_at bs) (8 * o) (8 * n)
    ∙ omega (
      arith,
      byte_ones-bit_of (get_or bs o 0),
      first,
      bit_at-eight bs o 1 (omega arith),
      bit_at-eight bs o 2 (omega arith),
      bit_at-eight bs o 3 (omega arith),
      bit_at-eight bs o 4 (omega arith),
      bit_at-eight bs o 5 (omega arith),
      bit_at-eight bs o 6 (omega arith),
      bit_at-eight bs o 7 (omega arith),
      ap (λ i. sum_bits (bit_at bs) i (8 * n)) next,
    )

get_or-drop : (bs : List ℕ) (o : ℕ) → get_or (drop o bs) 0 0 ≡ get_or bs o 0
get_or-drop bs zero = refl
get_or-drop [] (suc o) = refl
get_or-drop (b ∷ bs) (suc o) = get_or-drop bs o

pub sum_bits-bit_at :
    (bs : List ℕ) (o n : ℕ) → sum_bits (bit_at bs) (8 * o) (8 * n) ≡ count_ones (take n (drop o bs))
unfolding sum_bits count_ones
sum_bits-bit_at bs o zero = refl
sum_bits-bit_at bs o (suc n) =
    sum_bits-byte bs o n
    ∙ omega (
      arith,
      sum_bits-bit_at bs (o + 1) n,
      ap byte_ones (get_or-drop bs o),
      ap (λ xs. count_ones (take n xs)) (drop-add o 1 bs),
    )
    ∙ sym (count_ones-take n (drop o bs))

-- The bits of the bytes from `a` to `b`.
abbrev pub tallied : ℕ → ℕ → (ℕ → ℕ) → ℕ
tallied a b bits = sum_bits bits (8 * a) (8 * (suc b - a))

pub ones_between-tallied :
    (bs : List ℕ) (a b : ℕ) → ones_between bs (pos a) (pos b) ≡ tallied a b (bit_at bs)
unfolding ones_between
ones_between-tallied bs a b =
    let from_start : ltb_ℤ (pos a) (pos 0) ≡ false = ground arith in
    rw from_start (sym (sum_bits-bit_at bs a (suc b - a)))
