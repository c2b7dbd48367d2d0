-- ===== src/Popcount/Correct.antt =====
-- The optimised count is the count of the specification.
use solidbits.Prelude.{
  ℕ, zero, suc, ◌+◌, ◌-◌, ◌<◌, ◌≡◌, refl, inl, inr, List, get_or, take, drop, ap, take-add, leb,
  leb→le, Bool-cases, arith,
}
use solidbits.Bits.Table.{eq_below}
use solidbits.Popcount.{bits_in_byte, tail_bits, block_bits, block_loop, redis_popcount}
use solidbits.Popcount.Spec.{
  byte_ones, count_ones, count_ones-take, count_ones-append, AreBytes, AreBytes-get_or,
  AreBytes-drop,
}
use solidbits.Popcount.Block.{block_bits_lem}

-- The table of the source holds the number of ones of each byte.
bits_in_byte_lem : (b : ℕ) → b < 256 → get_or bits_in_byte b 0 ≡ byte_ones b
unfolding byte_ones
bits_in_byte_lem b h = eq_below (λ x. get_or bits_in_byte x 0) byte_ones 256 refl b h

tail_bits_lem :
    (n : ℕ) (p : List ℕ) (bits : ℕ) → AreBytes p → tail_bits n p bits ≡ bits + count_ones (take n p)
unfolding tail_bits count_ones
tail_bits_lem zero p bits h = omega arith
tail_bits_lem (suc n) p bits h = omega (
  arith,
  tail_bits_lem n (drop 1 p) (bits + get_or bits_in_byte (get_or p 0 0) 0) (AreBytes-drop 1 p h),
  bits_in_byte_lem (get_or p 0 0) (AreBytes-get_or p 0 h),
  count_ones-take n p,
)

take_split :
    (m n : ℕ) (p : List ℕ)
    → count_ones (take (m + n) p) ≡ count_ones (take m p) + count_ones (take n (drop m p))
take_split m n p = rw (take-add m n p, count_ones-append)

block_loop_lem :
    (fuel : ℕ) (p : List ℕ) (count bits : ℕ)
    → AreBytes p
    → block_loop fuel p count bits ≡ bits + count_ones (take count p)
unfolding block_loop
block_loop_lem zero p count bits h = tail_bits_lem count p bits h
block_loop_lem (suc fuel) p count bits h = elim (Bool-cases (leb 28 count)) [
  | inl e ↦
      let rounds : 28 + (count - 28) ≡ count = omega (arith, leb→le 28 count e) in
      rw e (
        omega (
          arith,
          block_loop_lem fuel (drop 28 p) (count - 28) (bits + block_bits p) (AreBytes-drop 28 p h),
          block_bits_lem p h,
          take_split 28 (count - 28) p,
          ap (λ n. count_ones (take n p)) rounds,
        ))
  | inr e ↦ rw e (tail_bits_lem count p bits h)
]

-- For every buffer and every count, `redisPopcount` returns the number of set bits of the first
-- `count` bytes, whether they are counted in blocks of 28 bytes or one by one.
pub redis_popcount_lem :
    (s : List ℕ) (count : ℕ) → AreBytes s → redis_popcount s count ≡ count_ones (take count s)
unfolding redis_popcount
redis_popcount_lem s count h = omega (arith, block_loop_lem count s count 0 h)
