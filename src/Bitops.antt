-- ===== src/Bitops.antt =====
-- src/bitops.c, the commands on the bits of one key and on several keys. A result of -1 is `none`.
pub mod Bit
pub mod SetGet
pub mod Count
pub mod Tally
pub mod Parts
pub mod Race
pub mod Keeps
use solidbits.Prelude.{
  ℕ, ◌+◌, ◌-◌, ◌*◌, ◌/◌, ◌%◌, ◌^◌, bit_and, bit_or, Option, none, some, List, [], ◌∷◌, ltb, ◌==◌,
  if◌then◌else◌, get_or, zero, suc, leb, ◌&&◌,
}
use solidbits.Prelude.Int.{ℤ, pos, negsuc, pos_part, ◌+ℤ◌, ◌-ℤ◌, ltb_ℤ}
use solidbits.Store.{Desc, Store, M, pure, ◌>>=◌, ◌>>◌, get_desc, undefined, next_fault}
use solidbits.Stdio.{read_from, write_to, failed}
use solidbits.Popcount.{redis_popcount}

-- `struct setbit_cmd` and `struct getbit_cmd`. The parser has rejected a negative offset and a value
-- that is not 0 or 1, so both are natural numbers here.
pub record SetbitCmd : Type 0 where
  pub key : List ℕ
  pub offset : ℕ
  pub value : ℕ

pub record GetbitCmd : Type 0 where
  pub key : List ℕ
  pub offset : ℕ

-- `~x` on an `int`, as a bit pattern.
abbrev pub not32 : ℕ → ℕ
not32 x = 2 ^ 32 - 1 - x

-- `bitval ? 1 : 0`
abbrev pub truth : ℕ → ℕ
truth bitval = if bitval == 0 then 0 else 1

-- `byteval &= ~(1 << bit); byteval |= ((cmd->value & 0x1) << bit); dst = byteval;`
unfoldable pub new_byte : ℕ → ℕ → ℕ → ℕ
new_byte byteval bit value =
    bit_or (bit_and byteval (not32 (2 ^ bit))) (bit_and value 1 * 2 ^ bit) % 2 ^ 8

-- The part of `setbitCommand` below its `if`: write the new byte, return the old bit.
unfoldable pub store_bit : SetbitCmd → ℕ → ℕ → ℕ → ℕ → ℕ → M (Option ℕ)
store_bit cmd dt offset bit byteval bitval = do
  r ← write_to dt (new_byte byteval bit cmd.value ∷ []) offset
  if r == 0 then pure none else pure (some (truth bitval))

-- `if (!read_from(dt, (void *)&dst, 1, offset)) return -1;`, and `dst` otherwise.
unfoldable pub read_byte : ℕ → ℕ → M (Option ℕ)
read_byte dt offset = do
  (dst, r) ← read_from dt 1 offset
  if r == 0 then pure none else pure (some (get_or dst 0 0))

-- After the read: fail as it does, or go on with the byte.
unfoldable pub or_fail : Option ℕ → (ℕ → M (Option ℕ)) → M (Option ℕ)
or_fail none k = pure none
or_fail (some byteval) k = k byteval

unfoldable pub setbit_command : SetbitCmd → ℕ → M (Option ℕ)
unfolding store_bit read_byte or_fail
setbit_command cmd dt = do
  d ← get_desc dt
  let offset = cmd.offset / 8
  let bit = 7 - cmd.offset % 8
  if ltb offset d.length
      then (read_byte dt offset >>= λ byte.
          or_fail byte λ byteval. store_bit cmd dt offset bit byteval (bit_and byteval (2 ^ bit)))
      else if cmd.value == 0
      then pure (some 0)
      else store_bit cmd dt offset bit 0 0

unfoldable pub getbit_command : GetbitCmd → ℕ → M (Option ℕ)
unfolding read_byte or_fail
getbit_command cmd dt = do
  d ← get_desc dt
  let offset = cmd.offset / 8
  let bit = 7 - cmd.offset % 8
  if ltb offset d.length
      then (read_byte dt offset >>= λ byte.
          or_fail byte λ byteval. pure (some (truth (bit_and byteval (2 ^ bit)))))
      else pure (some 0)

-- `struct bitcount_cmd`
pub record BitcountCmd : Type 0 where
  pub key : List ℕ
  pub start : ℤ
  pub end : ℤ

abbrev pub file_buffer_size : ℕ
file_buffer_size = 1146880

-- `if (x < 0) { x = (long)strlen + x; if (x < 0) x = 0; }`
abbrev pub from_end : ℤ → ℕ → ℕ
from_end x strlen = if ltb_ℤ x (pos 0) then pos_part (pos strlen +ℤ x) else pos_part x

-- The `while (remaining > 0)` loop over a buffer of `cap` bytes, with fuel for its rounds.
unfoldable pub count_loop : ℕ → ℕ → ℕ → ℕ → ℕ → ℕ → M ℕ
count_loop zero cap dt remaining o bits = if remaining == 0 then pure bits else undefined
count_loop (suc fuel) cap dt remaining o bits =
    let to_read = if ltb remaining cap then remaining else cap in
    let rest = λ (s : List ℕ) (r : ℕ).
      count_loop fuel cap dt (remaining - r) (o + r) (bits + redis_popcount s r) in
    if remaining == 0
    then pure bits
    else (read_from dt to_read o >>= λ (s, r). if r == 0 then pure bits else rest s r)

-- `posix_memalign`, the loop and `free`.
unfoldable pub count_bytes : ℕ → ℕ → ℕ → M (Option ℕ)
unfolding count_loop next_fault
count_bytes dt start count = do
  oom ← next_fault
  if failed oom
      then pure none
      else (count_loop count file_buffer_size dt count start 0 >>= λ bits. pure (some bits))

unfoldable pub bitcount_command : BitcountCmd → ℕ → M (Option ℕ)
unfolding count_bytes ◌+ℤ◌ ◌-ℤ◌
bitcount_command cmd dt = do
  d ← get_desc dt
  let strlen = d.length
  let start = from_end cmd.start strlen
  let to = from_end cmd.end strlen
  let end = if leb strlen to then pos strlen -ℤ pos 1 else pos to
  if ltb_ℤ cmd.start (pos 0) && ltb_ℤ cmd.end (pos 0) && ltb_ℤ cmd.end cmd.start
      then pure (some 0)
      else if ltb_ℤ end (pos start)
      then pure (some 0)
      else count_bytes dt start (pos_part (end -ℤ pos start +ℤ pos 1))
