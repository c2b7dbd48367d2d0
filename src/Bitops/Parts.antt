-- ===== src/Bitops/Parts.antt =====
-- `setbitCommand` in two parts, up to its write and from there on. Only a transfer holds the lock of the
-- descriptor, so other commands on the key may come between.
use solidbits.Prelude.{
  ℕ, ◌-◌, ◌/◌, ◌%◌, ◌^◌, ◌≡◌, refl, bit_and, Option, none, some, ltb, ◌==◌, if◌then◌else◌, inl, inr,
  Bool-cases,
}
use solidbits.Store.{Store, M, pure, ◌>>=◌, get_desc}
use solidbits.Bitops.{SetbitCmd, setbit_command, read_byte, or_fail, store_bit}

-- A command between its read and its write: it has its answer, or the byte and the bit that it read.
pub data Progress : Type 0 where
  finished : Option ℕ → Progress
  loaded : ℕ → ℕ → Progress

abbrev pub progress_of : ℕ → Option ℕ → Progress
progress_of bit none = finished none
progress_of bit (some byteval) = loaded byteval (bit_and byteval (2 ^ bit))

-- `setbitCommand` up to its write, and the rest of it.
unfoldable pub setbit_begin : SetbitCmd → ℕ → M Progress
setbit_begin cmd dt = do
  d ← get_desc dt
  let offset = cmd.offset / 8
  if ltb offset d.length
      then (read_byte dt offset >>= λ byte. pure (progress_of (7 - cmd.offset % 8) byte))
      else if cmd.value == 0
      then pure (finished (some 0))
      else pure (loaded 0 0)

unfoldable pub setbit_end : SetbitCmd → ℕ → Progress → M (Option ℕ)
setbit_end cmd dt (finished r) = pure r
setbit_end cmd dt (loaded byteval bitval) =
    store_bit cmd dt (cmd.offset / 8) (7 - cmd.offset % 8) byteval bitval

-- Both commands read before either writes.
unfoldable pub interleaved : SetbitCmd → SetbitCmd → ℕ → M (Option ℕ × Option ℕ)
interleaved a b dt = do
  p ← setbit_begin a dt
  q ← setbit_begin b dt
  x ← setbit_end a dt p
  y ← setbit_end b dt q
  pure (x, y)

-- The two parts make up the command.
parts_inside :
    (cmd : SetbitCmd) (dt bit : ℕ) (s : Store) (r : Option (Option ℕ × Store))
    → bit ≡ 7 - cmd.offset % 8
    → ((λ (x : Store). r) >>= λ byte.
          or_fail byte
            λ byteval. store_bit cmd dt (cmd.offset / 8) bit byteval (bit_and byteval (2 ^ bit)))
        s
      ≡ (((λ (x : Store). r) >>= λ byte. pure (progress_of bit byte)) >>= setbit_end cmd dt) s
unfolding or_fail setbit_end
parts_inside cmd dt bit s none e = refl
parts_inside cmd dt bit s (some (none, t)) e = refl
parts_inside cmd dt bit s (some (some byteval, t)) e = rw e refl

pub setbit_parts :
    (cmd : SetbitCmd) (dt : ℕ) (s : Store)
    → setbit_command cmd dt s ≡ (setbit_begin cmd dt >>= setbit_end cmd dt) s
unfolding setbit_command setbit_begin setbit_end
setbit_parts cmd dt s = elim (Bool-cases (ltb (cmd.offset / 8) (s.descs dt).length)) [
  | inl inside ↦
      rw (inside, ◌>>=◌)
        (parts_inside cmd dt (7 - cmd.offset % 8) s (read_byte dt (cmd.offset / 8) s) refl)
  | inr outside ↦ elim (Bool-cases (cmd.value == 0)) [
    | inl z ↦ rw (outside, ◌>>=◌, z) refl
    | inr o ↦ rw (outside, ◌>>=◌, o) refl
  ]
]
