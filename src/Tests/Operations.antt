-- ===== src/Tests/Operations.antt =====
-- Two SETBIT at once, and BITOP into another key.
use solidbits.Prelude.{
  true, ℕ, ◌≡◌, refl, ap, ◌∙◌, false, Option, get_or, some, none, List, [], ◌∷◌, ◌++◌, drop, arith,
}
use solidbits.Store.{Store, Stream, regular, update, update_disk}
use solidbits.Stdio.Holds.{Holds}
use solidbits.Bitops.{SetbitCmd}
use solidbits.Bitops.Bit.{bit_at}
use solidbits.Bitops.SetGet.{BitSet}
use solidbits.Bitops.Parts.{interleaved}
use solidbits.Bitops.Race.{lost_update}
use solidbits.Bitop.{op_or, byte_loop}
use solidbits.Bitop.Round.{op_malloc, bitop_with}
use solidbits.Bitop.Buffers.{
  array, op_malloc_from, bitop_blocks, split_fill_blocks, free_args, arrays_freed,
}
use solidbits.Bitop.Longest.{greatest}
use solidbits.Bitop.Dest.{plainop, AreApart}
use solidbits.Bitop.Stored.{bitop_with_dest}
use solidbits.Parser.Answer.{codes}
use solidbits.Tests.Demo.{demo_key, demo_path, demo_bytes, demo_desc, demo_store, demo-Holds}

abbrev ninth : SetbitCmd
ninth = record { key = demo_key; offset = 9; value = 1 }

abbrev tenth : SetbitCmd
tenth = record { key = demo_key; offset = 10; value = 1 }

lost_update_example :
    (t : Store) × (interleaved ninth tenth 0 demo_store
      ≡ some ((some (bit_at demo_bytes 9), some (bit_at demo_bytes 10)), t))
    × (c : BitSet demo_store t 0 demo_path demo_bytes 10 1) × (bit_at c.now 9 ≡ bit_at demo_bytes 9)
lost_update_example =
    lost_update demo_store 0 demo_path demo_bytes ninth tenth demo-Holds (omega arith) refl
      (λ e. omega (arith, e)) (omega arith)

-- Descriptor 1 is open on a file of three bytes.
abbrev with_dest : Store
with_dest = record demo_store {
  descs = update demo_store.descs 1 (record demo_desc {
    hash = 108;
    fd = some (record { path = codes "/e"; pos = 1; error = false });
    length = 3;
  });
  disk = update_disk demo_store.disk (codes "/e") (regular (7 ∷ 7 ∷ 7 ∷ []));
}

dest-Holds : Holds with_dest 1 (codes "/e") (7 ∷ 7 ∷ 7 ∷ [])
dest-Holds = record {
  is_open = record { stream = refl; file = refl; quiet = refl };
  synced = refl;
  bytes = (omega arith, (omega arith, (omega arith, tt)));
}

source-Holds : Holds with_dest 0 demo_path demo_bytes
source-Holds = record {
  is_open = record { stream = refl; file = refl; quiet = refl };
  synced = refl;
  bytes = (omega arith, (omega arith, tt));
}

abbrev stream_path : Option Stream → List ℕ
stream_path none = []
stream_path (some f) = f.path

sources-AreApart : AreApart with_dest 1 (codes "/e") (some 0 ∷ none ∷ [])
sources-AreApart = (
  (
    λ e. omega (arith, e),
    λ path e p.
        omega
          (arith, ap (λ fd. get_or (stream_path fd) 1 0) e ∙ ap (λ (q : List ℕ). get_or q 1 0) p),
  ),
  (tt, tt),
)

bitop_with_dest_example :
    let g = greatest (demo_bytes ∷ [] ∷ []) 0 in
    let now = byte_loop op_or g 0 demo_bytes ([] ∷ []) ++ drop g (7 ∷ 7 ∷ 7 ∷ []) in
    (t : Store) × (bitop_with 1 (plainop (codes "e") op_or) (some 1) (some 0 ∷ none ∷ []) with_dest
      ≡ some (some g, t))
    × Holds t 1 (codes "/e") now
    × (t.disk ≡ update_disk with_dest.disk (codes "/e") (regular now))
bitop_with_dest_example =
    bitop_with_dest with_dest 1 (codes "e") op_or (some 0 ∷ none ∷ []) demo_bytes ([] ∷ []) 1
      (codes "/e") (7 ∷ 7 ∷ 7 ∷ []) (omega arith) ((demo_path, source-Holds), (refl, tt)) dest-Holds
      sources-AreApart (omega arith)

-- The third of three allocations fails.
abbrev third_fails : Store
third_fails = record demo_store { faults = none ∷ none ∷ some 0 ∷ [] }

arrays_freed_example :
    ((t : Store) × (op_malloc 3 third_fails ≡ some (true, t)))
    × (op_malloc_from (true ∷ true ∷ false ∷ []) 0 (array ∷ []) ≡ some (true, array ∷ []))
    × (bitop_blocks 1 (true ∷ true ∷ false ∷ []) (true ∷ false ∷ []) (array ∷ [])
        ≡ some (array ∷ []))
    × (free_args 3 (split_fill_blocks 3 (array ∷ [])) ≡ some (array ∷ []))
arrays_freed_example = arrays_freed 1 3 3 (true ∷ false ∷ []) third_fails (array ∷ [])
