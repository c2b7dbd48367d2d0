-- ===== src/Popcount.antt =====
-- src/bitops.c, `redisPopcount`: the number of set bits of a buffer. Words of 4 bytes are read the
-- way a little-endian machine reads them; `uint32_t` arithmetic wraps at 2 ^ 32.
pub mod Spec
pub mod Lanes
pub mod Block
pub mod Correct
use solidbits.Prelude.{
  ℕ, zero, suc, ◌+◌, ◌-◌, ◌*◌, ◌/◌, ◌%◌, ◌^◌, bit_and, List, [], ◌∷◌, leb, if◌then◌else◌, drop,
  get_or,
}

abbrev pub u32 : ℕ → ℕ
u32 n = n % 2 ^ 32

-- `*(uint32_t *)(p + i)`
unfoldable pub load32 : List ℕ → ℕ → ℕ
load32 p i =
    get_or p i 0
    + 256 * (get_or p (i + 1) 0 + 256 * (get_or p (i + 2) 0 + 256 * get_or p (i + 3) 0))

-- `aux = aux - ((aux >> 1) & 0x55555555)`
unfoldable pub sum_pairs : ℕ → ℕ
sum_pairs aux = u32 (aux + 2 ^ 32 - bit_and (aux / 2) 0x5555_5555)

-- `aux = (aux & 0x33333333) + ((aux >> 2) & 0x33333333)`
unfoldable pub sum_nibbles : ℕ → ℕ
sum_nibbles aux = u32 (bit_and aux 0x3333_3333 + bit_and (aux / 4) 0x3333_3333)

-- `(aux + (aux >> 4)) & 0x0F0F0F0F`
unfoldable pub sum_bytes : ℕ → ℕ
sum_bytes aux = bit_and (u32 (aux + aux / 16)) 0x0f0f_0f0f

-- The three lines that each of `aux1` to `aux7` goes through.
unfoldable pub swar : ℕ → ℕ
swar aux = sum_bytes (sum_nibbles (sum_pairs aux))

-- One round of the 28-byte loop: what is added to `bits`.
unfoldable pub block_bits : List ℕ → ℕ
unfolding swar
block_bits p =
    u32 (
      u32 (
        swar (load32 p 0)
        + swar (load32 p 4)
        + swar (load32 p 8)
        + swar (load32 p 12)
        + swar (load32 p 16)
        + swar (load32 p 20)
        + swar (load32 p 24))
      * 0x0101_0101)
    / 2 ^ 24

-- `bitsinbyte`
abbrev pub bits_in_byte : List ℕ
bits_in_byte =
    0 ∷ 1 ∷ 1 ∷ 2 ∷ 1 ∷ 2 ∷ 2 ∷ 3 ∷ 1 ∷ 2 ∷ 2 ∷ 3 ∷ 2 ∷ 3 ∷ 3 ∷ 4 ∷ 1 ∷ 2 ∷ 2 ∷ 3 ∷ 2 ∷ 3 ∷ 3 ∷ 4
    ∷ 2 ∷ 3 ∷ 3 ∷ 4 ∷ 3 ∷ 4 ∷ 4 ∷ 5 ∷ 1 ∷ 2 ∷ 2 ∷ 3 ∷ 2 ∷ 3 ∷ 3 ∷ 4 ∷ 2 ∷ 3 ∷ 3 ∷ 4 ∷ 3 ∷ 4 ∷ 4 ∷ 5
    ∷ 2 ∷ 3 ∷ 3 ∷ 4 ∷ 3 ∷ 4 ∷ 4 ∷ 5 ∷ 3 ∷ 4 ∷ 4 ∷ 5 ∷ 4 ∷ 5 ∷ 5 ∷ 6 ∷ 1 ∷ 2 ∷ 2 ∷ 3 ∷ 2 ∷ 3 ∷ 3 ∷ 4
    ∷ 2 ∷ 3 ∷ 3 ∷ 4 ∷ 3 ∷ 4 ∷ 4 ∷ 5 ∷ 2 ∷ 3 ∷ 3 ∷ 4 ∷ 3 ∷ 4 ∷ 4 ∷ 5 ∷ 3 ∷ 4 ∷ 4 ∷ 5 ∷ 4 ∷ 5 ∷ 5 ∷ 6
    ∷ 2 ∷ 3 ∷ 3 ∷ 4 ∷ 3 ∷ 4 ∷ 4 ∷ 5 ∷ 3 ∷ 4 ∷ 4 ∷ 5 ∷ 4 ∷ 5 ∷ 5 ∷ 6 ∷ 3 ∷ 4 ∷ 4 ∷ 5 ∷ 4 ∷ 5 ∷ 5 ∷ 6
    ∷ 4 ∷ 5 ∷ 5 ∷ 6 ∷ 5 ∷ 6 ∷ 6 ∷ 7 ∷ 1 ∷ 2 ∷ 2 ∷ 3 ∷ 2 ∷ 3 ∷ 3 ∷ 4 ∷ 2 ∷ 3 ∷ 3 ∷ 4 ∷ 3 ∷ 4 ∷ 4 ∷ 5
    ∷ 2 ∷ 3 ∷ 3 ∷ 4 ∷ 3 ∷ 4 ∷ 4 ∷ 5 ∷ 3 ∷ 4 ∷ 4 ∷ 5 ∷ 4 ∷ 5 ∷ 5 ∷ 6 ∷ 2 ∷ 3 ∷ 3 ∷ 4 ∷ 3 ∷ 4 ∷ 4 ∷ 5
    ∷ 3 ∷ 4 ∷ 4 ∷ 5 ∷ 4 ∷ 5 ∷ 5 ∷ 6 ∷ 3 ∷ 4 ∷ 4 ∷ 5 ∷ 4 ∷ 5 ∷ 5 ∷ 6 ∷ 4 ∷ 5 ∷ 5 ∷ 6 ∷ 5 ∷ 6 ∷ 6 ∷ 7
    ∷ 2 ∷ 3 ∷ 3 ∷ 4 ∷ 3 ∷ 4 ∷ 4 ∷ 5 ∷ 3 ∷ 4 ∷ 4 ∷ 5 ∷ 4 ∷ 5 ∷ 5 ∷ 6 ∷ 3 ∷ 4 ∷ 4 ∷ 5 ∷ 4 ∷ 5 ∷ 5 ∷ 6
    ∷ 4 ∷ 5 ∷ 5 ∷ 6 ∷ 5 ∷ 6 ∷ 6 ∷ 7 ∷ 3 ∷ 4 ∷ 4 ∷ 5 ∷ 4 ∷ 5 ∷ 5 ∷ 6 ∷ 4 ∷ 5 ∷ 5 ∷ 6 ∷ 5 ∷ 6 ∷ 6 ∷ 7
    ∷ 4 ∷ 5 ∷ 5 ∷ 6 ∷ 5 ∷ 6 ∷ 6 ∷ 7 ∷ 5 ∷ 6 ∷ 6 ∷ 7 ∷ 6 ∷ 7 ∷ 7 ∷ 8 ∷ []

-- `while (count--) bits += bitsinbyte[*p++];`
unfoldable pub tail_bits : ℕ → List ℕ → ℕ → ℕ
tail_bits zero p bits = bits
tail_bits (suc count) p bits =
    tail_bits count (drop 1 p) (bits + get_or bits_in_byte (get_or p 0 0) 0)

-- The whole loop. The fuel bounds the rounds of 28 bytes; `redis_popcount` gives it `count`.
unfoldable pub block_loop : ℕ → List ℕ → ℕ → ℕ → ℕ
block_loop zero p count bits = tail_bits count p bits
block_loop (suc fuel) p count bits =
    let rest = block_loop fuel (drop 28 p) (count - 28) (bits + block_bits p) in
    if leb 28 count then rest else tail_bits count p bits

unfoldable pub redis_popcount : List ℕ → ℕ → ℕ
redis_popcount s count = block_loop count s count 0
