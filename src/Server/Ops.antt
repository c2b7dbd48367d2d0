-- ===== src/Server/Ops.antt =====
-- Reading, writing and counting the bits of a key: the operations on an array of bits, and the lines that ask for
-- them.
use solidbits.Prelude.{ℕ, List, [], ◌∷◌, ◌==◌, if◌then◌else◌}
use solidbits.Prelude.Int.{pos}
use solidbits.Bitops.Tally.{tallied}
use solidbits.Parser.CountLine.{BitcountLine}
use solidbits.Parser.Line.{SetbitLine, GetbitLine}

-- What a client asks: a bit to be set, a bit, or the number of ones in a range of bytes.
pub data BitOp : Type 0 where
  put : ℕ → ℕ → BitOp
  look : ℕ → BitOp
  tally : ℕ → ℕ → BitOp

-- The bits with one of them replaced.
abbrev pub put_bit : ℕ → ℕ → (ℕ → ℕ) → ℕ → ℕ
put_bit i v bits j = if i == j then v else bits j

-- What an operation returns, and the bits that it leaves.
abbrev pub asked : BitOp → (ℕ → ℕ) → ℕ
asked (put i v) bits = bits i
asked (look i) bits = bits i
asked (tally a b) bits = tallied a b bits

abbrev pub left : BitOp → (ℕ → ℕ) → ℕ → ℕ
left (put i v) bits = put_bit i v bits
left (look i) bits = bits
left (tally a b) bits = bits

-- What several return, and the bits that they leave.
unfoldable pub run_bits : List BitOp → (ℕ → ℕ) → List ℕ
run_bits [] bits = []
run_bits (op ∷ ops) bits = asked op bits ∷ run_bits ops (left op bits)

unfoldable pub bits_after : List BitOp → (ℕ → ℕ) → ℕ → ℕ
bits_after [] bits = bits
bits_after (op ∷ ops) bits = bits_after ops (left op bits)

-- A line that asks for it.
abbrev pub IsLine : (List ℕ → ℕ) → List ℕ → BitOp → List ℕ → Type 0
IsLine xxh64 key (put i v) line =
    SetbitLine xxh64 line (record { key = key; offset = i; value = v })
IsLine xxh64 key (look i) line = GetbitLine xxh64 line (record { key = key; offset = i })
IsLine xxh64 key (tally a b) line =
    BitcountLine xxh64 line (record { key = key; start = pos a; end = pos b })

pub data AreLines (xxh64 : List ℕ → ℕ) (key : List ℕ) : List BitOp → List (List ℕ) → Type 0 where
  no_line : AreLines xxh64 key [] []
  one_more :
      {op : BitOp}
      → {ops : List BitOp} → {line : List ℕ} → {lines : List (List ℕ)} → IsLine xxh64 key op line
      → AreLines xxh64 key ops lines
      → AreLines xxh64 key (op ∷ ops) (line ∷ lines)
