-- ===== src/Bitops/Keeps.antt =====
-- The commands on one key keep the table tidy.
use solidbits.Prelude.{ℕ, zero, suc, Option, none, some}
use solidbits.Store.{M}
use solidbits.Store.Keeps.{Keeps, keeps_rules, Keeps-pure}
use solidbits.Stdio.Keeps.{read_from-Keeps, write_to-Keeps}
use solidbits.Bitops.{
  SetbitCmd, GetbitCmd, BitcountCmd, read_byte, or_fail, store_bit, setbit_command, getbit_command,
  count_loop, count_bytes, bitcount_command,
}

store_bit-Keeps :
    (cmd : SetbitCmd) (dt offset bit byteval bitval : ℕ)
    → Keeps (store_bit cmd dt offset bit byteval bitval)
unfolding store_bit
store_bit-Keeps cmd dt offset bit byteval bitval = search (keeps_rules, write_to-Keeps) depth 10

read_byte-Keeps : (dt offset : ℕ) → Keeps (read_byte dt offset)
unfolding read_byte
read_byte-Keeps dt offset = search (keeps_rules, read_from-Keeps) depth 10

or_fail-Keeps :
    (byte : Option ℕ) (k : ℕ → M (Option ℕ)) → ((b : ℕ) → Keeps (k b)) → Keeps (or_fail byte k)
unfolding or_fail
or_fail-Keeps none k h = Keeps-pure none
or_fail-Keeps (some b) k h = h b

pub setbit_command-Keeps : (cmd : SetbitCmd) (dt : ℕ) → Keeps (setbit_command cmd dt)
unfolding setbit_command
setbit_command-Keeps cmd dt =
    search (keeps_rules, read_byte-Keeps, or_fail-Keeps, store_bit-Keeps) depth 12

pub getbit_command-Keeps : (cmd : GetbitCmd) (dt : ℕ) → Keeps (getbit_command cmd dt)
unfolding getbit_command
getbit_command-Keeps cmd dt = search (keeps_rules, read_byte-Keeps, or_fail-Keeps) depth 12

count_loop-Keeps :
    (fuel cap dt remaining o bits : ℕ) → Keeps (count_loop fuel cap dt remaining o bits)
unfolding count_loop
count_loop-Keeps zero cap dt remaining o bits = search (keeps_rules) depth 6
count_loop-Keeps (suc fuel) cap dt remaining o bits =
    search (keeps_rules, read_from-Keeps, count_loop-Keeps fuel) depth 10

count_bytes-Keeps : (dt start count : ℕ) → Keeps (count_bytes dt start count)
unfolding count_bytes
count_bytes-Keeps dt start count = search (keeps_rules, count_loop-Keeps) depth 10

pub bitcount_command-Keeps : (cmd : BitcountCmd) (dt : ℕ) → Keeps (bitcount_command cmd dt)
unfolding bitcount_command
bitcount_command-Keeps cmd dt = search (keeps_rules, count_bytes-Keeps) depth 12
