-- ===== src/Tests/Files.antt =====
-- The table, the files and their paths.
use solidbits.Prelude.{ℕ, ◌≡◌, refl, some, none, [], ◌∷◌, length, take, drop, arith}
use solidbits.Store.{Store, update}
use solidbits.Stdio.{read_from, write_to}
use solidbits.Stdio.Transfer.{view, written, read_from_lem, write_to_lem}
use solidbits.Paths.Hex.{key_path_injective}
use solidbits.Table.{scan_slots}
use solidbits.Table.Oldest.{Chosen, scan_slots_lem}
use solidbits.Prepare.{found, ended, walk, link}
use solidbits.Prepare.Lookup.{looked_up}
use solidbits.Prepare.Collision.{link_loses_entry}
use solidbits.Parser.Answer.{codes}
use solidbits.Tests.Demo.{demo_path, demo_bytes, demo_desc, demo_store, demo-Holds}

read_from_lem_example :
    (t : Store) × (read_from 0 4 1 demo_store
      ≡ some ((take 4 (drop 1 demo_bytes), length (take 4 (drop 1 demo_bytes))), t))
    × (view t ≡ view demo_store)
read_from_lem_example = read_from_lem demo_store 0 demo_path demo_bytes 4 1 demo-Holds.is_open

write_to_lem_example :
    (t : Store) × (write_to 0 (7 ∷ []) 5 demo_store ≡ some (length {A = ℕ} (7 ∷ []), t))
    × (view t ≡ written (view demo_store) 0 demo_path demo_bytes (7 ∷ []) 5)
write_to_lem_example = write_to_lem demo_store 0 demo_path demo_bytes (7 ∷ []) 5 demo-Holds.is_open

-- A second entry, on the chain of 107.
abbrev two_entries : Store
two_entries = record demo_store {
  descs = update demo_store.descs 1 (record demo_desc { hash = 65644 });
}

two_found : looked_up two_entries 107 ≡ found 0
unfolding walk
two_found = refl

link_loses_entry_example :
    (t : Store) × (link 107 (some 0) 0 1 two_entries ≡ some (tt, t))
    × (looked_up t 107 ≡ ended (some 1) 0)
link_loses_entry_example =
    link_loses_entry two_entries 0 1 107 two_found refl (λ e. omega (arith, e)) refl

scan_slots_lem_example : Chosen demo_store.descs 3 0 9 none (scan_slots demo_store.descs 3 0 9 none)
scan_slots_lem_example = scan_slots_lem demo_store.descs 3 0 9 none

key_path_injective_example : ◌≡◌ {A = ℕ} 255 255
key_path_injective_example =
    key_path_injective (codes "/data") 255 255 (omega arith) (omega arith) refl
