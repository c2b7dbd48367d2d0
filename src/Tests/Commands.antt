-- ===== src/Tests/Commands.antt =====
-- The commands on the open key.
use solidbits.Prelude.{ℕ, ◌≡◌, refl, some, none, List, [], ◌∷◌, take, arith}
use solidbits.Prelude.Int.{negsuc}
use solidbits.Store.{Store}
use solidbits.Store.Keys.{SameKeys}
use solidbits.Stdio.Transfer.{view}
use solidbits.Stdio.Holds.{Holds}
use solidbits.Popcount.{redis_popcount}
use solidbits.Popcount.Spec.{count_ones, AreBytes}
use solidbits.Popcount.Correct.{redis_popcount_lem}
use solidbits.Bitops.{SetbitCmd, GetbitCmd, BitcountCmd, setbit_command, bitcount_command}
use solidbits.Bitops.Bit.{bit_at}
use solidbits.Bitops.SetGet.{BitSet, setbit_command_lem}
use solidbits.Bitops.Count.{ones_between, bitcount_command_lem}
use solidbits.Bitop.{op_xor, byte_loop, combine_buffers}
use solidbits.Bitop.Round.{bitop_with}
use solidbits.Bitop.Counted.{countop}
use solidbits.Bitop.Rounds.{bitop_with_count}
use solidbits.Bitop.Wide.{combine_buffers_lem}
use solidbits.Parser.Words.{words}
use solidbits.Parser.Number.{c_string, atol}
use solidbits.Parser.Answer.{codes}
use solidbits.Parser.Execute.{parse_and_execute}
use solidbits.Parser.Cached.{number}
use solidbits.Parser.Line.{SetbitLine, GetbitLine, setbit_line_lem, getbit_line_lem}
use solidbits.Tests.Demo.{
  demo_hash, demo_key, demo_path, demo_bytes, demo_store, demo-Holds, demo_found,
}

abbrev pub nine : SetbitCmd
nine = record { key = demo_key; offset = 9; value = 1 }

abbrev pub nine_again : GetbitCmd
nine_again = record { key = demo_key; offset = 9 }

pub nine_line : SetbitLine demo_hash (codes "SETBIT k  9 1") nine
unfolding words c_string atol
nine_line = record {
  name = codes "SETBIT";
  key = codes "k";
  offset = codes "9";
  value = codes "1";
  has_words = refl;
  is_setbit = refl;
  long_enough = omega arith;
  has_key = refl;
  has_offset = refl;
  has_value = refl;
  key_fits = omega arith;
  offset_fits = omega arith;
  is_bit = omega arith;
}

setbit_line_lem_example :
    (t : Store) × (parse_and_execute demo_hash (codes "SETBIT k  9 1") demo_store
      ≡ some (number (bit_at demo_bytes 9), t))
    × BitSet demo_store t 0 demo_path demo_bytes 9 1
setbit_line_lem_example =
    setbit_line_lem demo_hash (codes "SETBIT k  9 1") nine demo_store 0 demo_path demo_bytes
      nine_line demo_found demo-Holds

pub nine_again_line : GetbitLine demo_hash (codes "GETBIT k 9") nine_again
unfolding words c_string atol
nine_again_line = record {
  name = codes "GETBIT";
  key = codes "k";
  offset = codes "9";
  has_words = refl;
  is_getbit = refl;
  long_enough = omega arith;
  has_key = refl;
  has_offset = refl;
  key_fits = omega arith;
  offset_fits = omega arith;
}

getbit_line_lem_example :
    (t : Store) × (parse_and_execute demo_hash (codes "GETBIT k 9") demo_store
      ≡ some (number (bit_at demo_bytes 9), t))
    × Holds t 0 demo_path demo_bytes
    × (t.disk ≡ demo_store.disk)
    × SameKeys demo_store t 0
getbit_line_lem_example =
    getbit_line_lem demo_hash (codes "GETBIT k 9") nine_again demo_store 0 demo_path demo_bytes
      nine_again_line demo_found demo-Holds

setbit_command_lem_example :
    (t : Store) × (setbit_command nine 0 demo_store ≡ some (some (bit_at demo_bytes 9), t))
    × BitSet demo_store t 0 demo_path demo_bytes 9 1
setbit_command_lem_example =
    setbit_command_lem demo_store 0 demo_path demo_bytes nine demo-Holds (omega arith)

abbrev last_byte : BitcountCmd
last_byte = record { key = demo_key; start = negsuc 0; end = negsuc 0 }

bitcount_command_lem_example :
    (t : Store) × (bitcount_command last_byte 0 demo_store
      ≡ some (some (ones_between demo_bytes (negsuc 0) (negsuc 0)), t))
    × (view t ≡ view demo_store)
bitcount_command_lem_example =
    bitcount_command_lem demo_store 0 demo_path demo_bytes last_byte demo-Holds

abbrev thirty_bytes : List ℕ
thirty_bytes =
    1 ∷ 2 ∷ 3 ∷ 4 ∷ 5 ∷ 6 ∷ 7 ∷ 8 ∷ 9 ∷ 10 ∷ 11 ∷ 12 ∷ 13 ∷ 14 ∷ 15 ∷ 16 ∷ 17 ∷ 18 ∷ 19 ∷ 20 ∷ 21
    ∷ 22 ∷ 23 ∷ 24 ∷ 25 ∷ 26 ∷ 27 ∷ 28 ∷ 255 ∷ 254 ∷ []

thirty_bytes-AreBytes : AreBytes thirty_bytes
thirty_bytes-AreBytes = ground arith

redis_popcount_lem_example : redis_popcount thirty_bytes 29 ≡ count_ones (take 29 thirty_bytes)
redis_popcount_lem_example = redis_popcount_lem thirty_bytes 29 thirty_bytes-AreBytes

combine_buffers_lem_example :
    combine_buffers op_xor 30 thirty_bytes (thirty_bytes ∷ demo_bytes ∷ [])
    ≡ byte_loop op_xor 30 0 thirty_bytes (thirty_bytes ∷ demo_bytes ∷ [])
combine_buffers_lem_example =
    combine_buffers_lem op_xor 30 thirty_bytes (thirty_bytes ∷ demo_bytes ∷ [])
      thirty_bytes-AreBytes (thirty_bytes-AreBytes, (demo-Holds.bytes, tt))

-- A buffer of one byte makes two rounds; the second source has no file.
bitop_with_count_example :
    (t : Store) × (bitop_with 1 (countop op_xor) none (some 0 ∷ none ∷ []) demo_store
      ≡ some (some (count_ones (byte_loop op_xor 2 0 demo_bytes ([] ∷ []))), t))
    × (view t ≡ view demo_store)
bitop_with_count_example =
    bitop_with_count demo_store 1 op_xor (some 0 ∷ none ∷ []) demo_bytes ([] ∷ []) (omega arith)
      refl ((demo_path, demo-Holds), (refl, tt)) (omega arith)
