-- ===== src/Tests/Demo.antt =====
-- A store in which the key `k` is open, and the hash function of the tests.
use solidbits.Prelude.{ℕ, ◌≡◌, refl, none, some, List, [], ◌∷◌, if◌then◌else◌, false, arith}
use solidbits.Prelude.Int.{pos}
use solidbits.Store.{absent, regular, Desc, Store, bytes_eq, update, update_disk}
use solidbits.Stdio.Holds.{Holds}
use solidbits.Table.{no_desc}
use solidbits.Prepare.{found, walk}
use solidbits.Prepare.Lookup.{looked_up}
use solidbits.Parser.Answer.{codes}
use solidbits.Parser.Cases.{setbit_hash, getbit_hash, bitpos_hash}

abbrev pub demo_hash : List ℕ → ℕ
demo_hash bs =
    if bytes_eq bs (codes "SETBI")
    then setbit_hash
    else if bytes_eq bs (codes "GETBI")
    then getbit_hash
    else if bytes_eq bs (codes "BITPO")
    then bitpos_hash
    else 107

abbrev pub demo_key : List ℕ
demo_key = codes "k"

abbrev pub demo_path : List ℕ
demo_path = codes "/d"

abbrev pub demo_bytes : List ℕ
demo_bytes = 165 ∷ 1 ∷ []

abbrev pub demo_desc : Desc
demo_desc = record {
  hash = 107;
  fd = some (record { path = demo_path; pos = 0; error = false });
  length = 2;
  last_access = 5;
  access_times = 1;
  created_at = 5;
  refs = pos 0;
  next = none;
  prev = none;
}

abbrev pub demo_store : Store
demo_store = record {
  descs = update (λ i. no_desc) 0 demo_desc;
  xxtable = update (λ i. none) 107 (some 0);
  idx = 1;
  dir = codes "/data";
  disk = update_disk (λ p. absent) demo_path (regular demo_bytes);
  faults = [];
  times = [];
}

pub demo-Holds : Holds demo_store 0 demo_path demo_bytes
demo-Holds = record {
  is_open = record { stream = refl; file = refl; quiet = refl };
  synced = refl;
  bytes = (omega arith, (omega arith, tt));
}

pub demo_found : looked_up demo_store (demo_hash demo_key) ≡ found 0
unfolding walk
demo_found = refl
