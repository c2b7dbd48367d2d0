-- ===== src/Tests/Server.antt =====
-- A server that has started with nothing in its table, and lines of the key `k`.
use solidbits.Prelude.{
  subst, sym, zero, suc, ◌<◌, ◌==◌, if◌then◌else◌, ℕ, ◌≡◌, refl, inl, some, none, List, [], ◌∷◌,
  arith,
}
use solidbits.Store.{bytes_eq, Store, regular, update_disk}
use solidbits.Store.Paths.{update_disk_self}
use solidbits.Prepare.Stale.{RecordsLength, prepare_file_stale}
use solidbits.Paths.{key_path, check_dir, hex_digits}
use solidbits.Table.{no_desc, init_file}
use solidbits.Prepare.{ready, found, ended, create, truncate, prepare_file, walk}
use solidbits.Prepare.Lookup.{looked_up}
use solidbits.Prepare.Fresh.{Opens, Entered, prepare_file_fresh}
use solidbits.Prepare.Slot.{CanOpen}
use solidbits.Prepare.Open.{Gives}
use solidbits.Bitops.Bit.{bit_at, bit_of}
use solidbits.Parser.Answer.{codes}
use solidbits.Parser.Cached.{number}
use solidbits.Startup.Address.{Config}
use solidbits.Startup.Options.{data_directory, Opt, defaults, read_options, apply_option}
use solidbits.Startup.Run.{main, serves, serve, daemonize, run_server}
use solidbits.Startup.Files.{write_pid}
use solidbits.Server.{serve_lines}
use solidbits.Server.Chains.{AllAlone, chains_stay_single}
use solidbits.Server.Ops.{
  put, look, tally, BitOp, AreLines, no_line, one_more, run_bits, bits_after,
}
use solidbits.Server.Bits.{Ready, serves_bits}
use solidbits.Server.Keys.{AreApart}
use solidbits.Server.Many.{AreKeyLines, run_keys, keys_after, serves_keys}
use solidbits.Parser.Words.{words}
use solidbits.Parser.Number.{c_string, atol}
use solidbits.Prelude.Int.{pos}
use solidbits.Bitops.Tally.{sum_bits}
use solidbits.Parser.Cases.{bitcount_hash}
use solidbits.Parser.CountLine.{BitcountLine}
use solidbits.Parser.Line.{SetbitLine, GetbitLine}
use solidbits.Tests.Demo.{demo_hash, demo_key, demo_bytes, demo-Holds}
use solidbits.Tests.Commands.{nine_line, nine_again_line}
use solidbits.Tests.Startup.{demo_system, ready_store}

abbrev demo_options : List Opt
demo_options = data_directory (codes "/data") ∷ []

abbrev started_config : Config
started_config = record (defaults demo_system) { dir = some (codes "/data") }

abbrev started_store : Store
started_store = record ready_store {
  dir = codes "/data";
  descs = λ i. no_desc;
  xxtable = λ i. none;
  idx = 0;
}

demo_starts :
    main demo_system demo_options ready_store ≡ some (serves started_config, started_store)
unfolding main read_options apply_option check_dir daemonize write_pid defaults serve init_file
    run_server
demo_starts = refl

abbrev demo_lines : List (List ℕ)
demo_lines = codes "GETBIT k 9" ∷ codes "SETBIT k  9 1" ∷ codes "GETBIT k 9" ∷ []

chains_stay_single_example : AllAlone (serve_lines demo_hash demo_lines started_store)
chains_stay_single_example =
    chains_stay_single demo_hash demo_system demo_options ready_store started_config started_store
      demo_lines demo_starts

demo-CanOpen : CanOpen started_store 107 []
demo-CanOpen = record {
  slot = (0, omega arith, omega arith, refl);
  quiet = refl;
  short = omega arith;
  one = inl refl;
  two = inl refl;
  file = refl;
  bytes = tt;
}

nothing_found : looked_up started_store 107 ≡ ended none 0
unfolding walk
nothing_found = refl

prepare_file_fresh_example :
    (i : ℕ) × (t : Store) × (prepare_file demo_hash demo_key create started_store
      ≡ some (ready i, t))
    × Opens started_store t i 107 []
    × (looked_up t 107 ≡ found i)
    × Entered started_store t i 107
prepare_file_fresh_example =
    prepare_file_fresh demo_hash demo_key started_store [] create none nothing_found tt demo-CanOpen

-- The file of the key is there, with two bytes.
abbrev filled_store : Store
filled_store = record started_store {
  disk = update_disk started_store.disk (key_path (codes "/data") 107) (regular demo_bytes);
}

filled_file : filled_store.disk (key_path (codes "/data") 107) ≡ regular demo_bytes
filled_file =
    update_disk_self started_store.disk (key_path (codes "/data") 107) (regular demo_bytes)

filled-CanOpen : CanOpen filled_store 107 demo_bytes
unfolding hex_digits
filled-CanOpen = record {
  slot = (0, omega arith, omega arith, refl);
  quiet = refl;
  short = omega arith;
  one = inl refl;
  two = inl refl;
  file = subst (λ n. Gives n demo_bytes) (sym filled_file) refl;
  bytes = demo-Holds.bytes;
}

prepare_file_stale_example :
    (i : ℕ) × (t : Store) × (prepare_file demo_hash demo_key truncate filled_store
      ≡ some (ready i, t))
    × RecordsLength t i (key_path (codes "/data") 107) 2
prepare_file_stale_example =
    prepare_file_stale demo_hash demo_key filled_store demo_bytes none nothing_found filled_file
      filled-CanOpen

abbrev demo_ops : List BitOp
demo_ops = look 9 ∷ put 9 1 ∷ look 9 ∷ []

demo-AreLines : AreLines demo_hash demo_key demo_ops demo_lines
demo-AreLines = one_more nine_again_line (one_more nine_line (one_more nine_again_line no_line))

demo-Ready : Ready started_store 107 []
demo-Ready = record {
  quiet = refl;
  short = omega arith;
  one = inl refl;
  two = inl refl;
  file = refl;
  bytes = tt;
}

serves_bits_example :
    (u : Store) × (serve_lines demo_hash demo_lines started_store
      ≡ some (number 0 ∷ number 0 ∷ number 1 ∷ [], u))
    × (now : List ℕ) × Gives (u.disk (key_path started_store.dir 107)) now
    × (bit_at now ≡ bits_after demo_ops (bit_at []))
unfolding run_bits bit_at bit_of
serves_bits_example =
    serves_bits demo_hash demo_system demo_options ready_store started_config started_store demo_key
      [] demo_ops demo_lines demo_starts demo-Ready demo-AreLines

-- Two keys.
abbrev two_hash : List ℕ → ℕ
two_hash bs =
    if bytes_eq bs (codes "j")
    then 108
    else if bytes_eq bs (codes "BITCO")
    then bitcount_hash
    else demo_hash bs

abbrev two_keys : ℕ → List ℕ
two_keys k = if k == 0 then codes "k" else codes "j"

set_k :
    SetbitLine two_hash (codes "SETBIT k  9 1") (record { key = codes "k"; offset = 9; value = 1 })
unfolding words c_string atol
set_k = record {
  name = codes "SETBIT";
  key = codes "k";
  offset = codes "9";
  value = codes "1";
  has_words = refl;
  is_setbit = refl;
  long_enough = omega arith;
  has_key = refl;
  has_offset = refl;
  has_value = refl;
  key_fits = omega arith;
  offset_fits = omega arith;
  is_bit = omega arith;
}

get_k : GetbitLine two_hash (codes "GETBIT k 9") (record { key = codes "k"; offset = 9 })
unfolding words c_string atol
get_k = record {
  name = codes "GETBIT";
  key = codes "k";
  offset = codes "9";
  has_words = refl;
  is_getbit = refl;
  long_enough = omega arith;
  has_key = refl;
  has_offset = refl;
  key_fits = omega arith;
  offset_fits = omega arith;
}

get_j : GetbitLine two_hash (codes "GETBIT j 9") (record { key = codes "j"; offset = 9 })
unfolding words c_string atol
get_j = record {
  name = codes "GETBIT";
  key = codes "j";
  offset = codes "9";
  has_words = refl;
  is_getbit = refl;
  long_enough = omega arith;
  has_key = refl;
  has_offset = refl;
  key_fits = omega arith;
  offset_fits = omega arith;
}

count_k :
    BitcountLine two_hash
      (codes "BITCOUNT k 0 1")
      (record { key = codes "k"; start = pos 0; end = pos 1 })
unfolding words c_string atol
count_k = record {
  name = codes "BITCOUNT";
  key = codes "k";
  start = codes "0";
  end = codes "1";
  has_words = refl;
  is_bitcount = refl;
  long_enough = omega arith;
  has_key = refl;
  has_start = refl;
  has_end = refl;
  key_fits = omega arith;
}

two-AreApart : AreApart 2 (λ k. two_hash (two_keys k))
two-AreApart = record {
  apart = λ j k hj hk ne. ground arith;
  nonzero = λ k hk. ground arith;
  fits = λ k hk. ground arith;
}

two-Ready : (k : ℕ) → k < 2 → Ready started_store (two_hash (two_keys k)) []
two-Ready zero h = record {
  quiet = refl;
  short = omega arith;
  one = inl refl;
  two = inl refl;
  file = refl;
  bytes = tt;
}
two-Ready (suc k) h = record {
  quiet = refl;
  short = omega arith;
  one = inl refl;
  two = inl refl;
  file = refl;
  bytes = tt;
}

abbrev two_ops : List (ℕ × BitOp)
two_ops = (0, put 9 1) ∷ (1, look 9) ∷ (0, look 9) ∷ (0, tally 0 1) ∷ []

abbrev two_lines : List (List ℕ)
two_lines =
    codes "SETBIT k  9 1" ∷ codes "GETBIT j 9" ∷ codes "GETBIT k 9" ∷ codes "BITCOUNT k 0 1" ∷ []

two-AreKeyLines : AreKeyLines two_hash two_keys 2 two_ops two_lines
two-AreKeyLines = AreKeyLines.one_more (omega arith) set_k (
    AreKeyLines.one_more (omega arith) get_j (
      AreKeyLines.one_more (omega arith) get_k
        (AreKeyLines.one_more (omega arith) count_k AreKeyLines.no_line)))

serves_keys_example :
    (u : Store) × (serve_lines two_hash two_lines started_store
      ≡ some (number 0 ∷ number 0 ∷ number 1 ∷ number 1 ∷ [], u))
    × ((k : ℕ)
        → k < 2
        → (now : List ℕ) × Gives (u.disk (key_path started_store.dir (two_hash (two_keys k)))) now
          × (bit_at now ≡ keys_after two_ops (λ k. bit_at []) k))
unfolding run_keys sum_bits bit_at bit_of
serves_keys_example =
    serves_keys two_hash demo_system demo_options ready_store started_config started_store two_keys
      (λ k. []) 2 two_ops two_lines demo_starts (omega arith) two-AreApart refl two-Ready
      two-AreKeyLines
