-- ===== src/Stdio/Keeps.antt =====
-- Transfers keep the table tidy, whether they fail or not.
use solidbits.Prelude.{ℕ, List, none, some}
use solidbits.Store.{pure, undefined}
use solidbits.Store.Keeps.{
  Keeps, keeps_rules, Keeps-get_desc, Keeps-option, Keeps-undefined, Keeps-pure,
}
use solidbits.Stdio.{stream_of, fseek, fread, fwrite, write_to, read_from, ferror, grow_length}

stream_of-Keeps : (dt : ℕ) → Keeps (stream_of dt)
stream_of-Keeps dt =
    Keeps-get_desc dt (λ d. elim d.fd [ none ↦ undefined | some f ↦ pure f ])
      (λ d a b. Keeps-option d.fd undefined pure Keeps-undefined Keeps-pure)

fseek-Keeps : (dt offset : ℕ) → Keeps (fseek dt offset)
unfolding fseek
fseek-Keeps dt offset = search (keeps_rules, stream_of-Keeps) depth 12

fread-Keeps : (dt size : ℕ) → Keeps (fread dt size)
unfolding fread
fread-Keeps dt size = search (keeps_rules, stream_of-Keeps) depth 12

fwrite-Keeps : (dt : ℕ) (buf : List ℕ) → Keeps (fwrite dt buf)
unfolding fwrite
fwrite-Keeps dt buf = search (keeps_rules, stream_of-Keeps) depth 14

ferror-Keeps : (dt : ℕ) → Keeps (ferror dt)
ferror-Keeps dt = search (keeps_rules, stream_of-Keeps) depth 12

grow_length-Keeps : (dt : ℕ) → Keeps (grow_length dt)
unfolding grow_length
grow_length-Keeps dt = search (keeps_rules, stream_of-Keeps) depth 12

pub write_to-Keeps : (dt : ℕ) (buf : List ℕ) (offset : ℕ) → Keeps (write_to dt buf offset)
unfolding write_to
write_to-Keeps dt buf offset =
    search (keeps_rules, fseek-Keeps, fwrite-Keeps, ferror-Keeps, grow_length-Keeps) depth 14

pub read_from-Keeps : (dt size offset : ℕ) → Keeps (read_from dt size offset)
unfolding read_from
read_from-Keeps dt size offset =
    search (keeps_rules, fseek-Keeps, fread-Keeps, ferror-Keeps) depth 14
