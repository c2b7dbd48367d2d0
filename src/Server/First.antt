-- ===== src/Server/First.antt =====
-- Lines of a key that has no descriptor yet.
use solidbits.Prelude.{
  ℕ, ◌%◌, ◌<◌, ◌≡◌, inl, inr, refl, sym, ap, subst, fun_ext, ◌∙◌, Option, none, some, List, [],
}
use solidbits.Store.{M, Store, Node, absent, directory, regular, ◌>>=◌}
use solidbits.Store.Keys.{SameKeys-trans}
use solidbits.Bitops.{SetbitCmd, GetbitCmd, BitcountCmd}
use solidbits.Bitops.Bit.{bit_at}
use solidbits.Bitops.SetGet.{setbit_command_lem}
use solidbits.Table.{desc_hash_table_size}
use solidbits.Prepare.{create, existing}
use solidbits.Prepare.Lookup.{Holds-Released}
use solidbits.Prepare.Open.{Gives, CanStart}
use solidbits.Prepare.Slot.{CanOpen}
use solidbits.Prepare.Fresh.{prepare_file_fresh}
use solidbits.Prepare.Missing.{prepare_file_missing}
use solidbits.Paths.{key_path}
use solidbits.Parser.Execute.{parse_and_execute, run_setbit}
use solidbits.Parser.Cached.{number, finish_lem}
use solidbits.Parser.Line.{SetbitLine-runs, GetbitLine-runs}
use solidbits.Prelude.Int.{pos}
use solidbits.Parser.Reading.{
  Reads, reading, nothing-number, get_body, get-Reads, run_getbit-reading, count_body, count-Reads,
}
use solidbits.Parser.CountLine.{BitcountLine-runs}
use solidbits.Parser.Answer.{Answer}
use solidbits.Bitops.Count.{ones_between}
use solidbits.Bitops.Tally.{tallied, ones_between-tallied}
use solidbits.Server.Ops.{BitOp, put, look, tally, put_bit, asked, left, IsLine}
use solidbits.Server.Change.{Waits-Change}
use solidbits.Server.Kept.{BitSet-disk}
use solidbits.Server.Went.{Waiting, Took, Stays, Went, misses, Took-after}

-- The SETBIT that opens the key.
first_set_lem :
    (xxh64 : List ℕ → ℕ) (cmd : SetbitCmd) (s : Store) (bs : List ℕ)
    → cmd.value < 2
    → s.xxtable (xxh64 cmd.key % desc_hash_table_size) ≡ none
    → CanOpen s (xxh64 cmd.key) bs
    → (dt : ℕ) × (t : Store) × (run_setbit xxh64 cmd s ≡ some (number (bit_at bs cmd.offset), t))
      × Took s t
          (xxh64 cmd.key)
          dt
          (key_path s.dir (xxh64 cmd.key))
          (put_bit cmd.offset cmd.value (bit_at bs))
unfolding run_setbit
first_set_lem xxh64 cmd s bs v h c =
    let hash : ℕ = xxh64 cmd.key in
    let path : List ℕ = key_path s.dir hash in
    let (dt, s1, opens, o, finds, e) =
      prepare_file_fresh xxh64 cmd.key s bs create none (misses s hash h) tt c in
    let (s2, run, b) = setbit_command_lem s1 dt path bs cmd o.holds v in
    let (s3, done, w) = finish_lem s2 dt (bit_at bs cmd.offset) in
    let there : key_path s1.dir hash ≡ path = ap (λ d. key_path d hash) o.dir in
    (
      dt,
      s3,
      rw (opens, ◌>>=◌, run, done),
      Took-after s s1 s3 hash dt bs b.now (put_bit cmd.offset cmd.value (bit_at bs)) o e
          (SameKeys-trans s1 s2 s3 dt b.keys w.keys)
          (λ q ne.
            ap (λ (d : List ℕ → Node). d q) w.disk
            ∙ BitSet-disk s1 s2 hash dt path bs cmd.offset cmd.value there b q ne)
          (Holds-Released s2 s3 dt path b.now w b.holds) (fun_ext b.bits),
    )

-- The command that opens the key to read it.
first_read_lem :
    (xxh64 : List ℕ → ℕ) (key : List ℕ) (body : ℕ → M Answer) (value : List ℕ → ℕ) (s : Store)
    (bs cs : List ℕ)
    → Reads body value
    → s.disk (key_path s.dir (xxh64 key)) ≡ regular cs
    → s.xxtable (xxh64 key % desc_hash_table_size) ≡ none
    → CanOpen s (xxh64 key) bs
    → (dt : ℕ) × (t : Store) × (reading xxh64 key body s ≡ some (number (value bs), t))
      × Took s t (xxh64 key) dt (key_path s.dir (xxh64 key)) (bit_at bs)
unfolding reading
first_read_lem xxh64 key body value s bs cs r e h c =
    let hash : ℕ = xxh64 key in
    let path : List ℕ = key_path s.dir hash in
    let (dt, s1, opens, o, finds, entered) =
      prepare_file_fresh xxh64 key s bs existing none (misses s hash h)
        (subst (CanStart existing) (sym e) tt) c in
    let (t, run, o', d, k) = r.runs s1 dt path bs o.holds in
    (
      dt,
      t,
      rw (opens, ◌>>=◌) run,
      Took-after s s1 t hash dt bs bs (bit_at bs) o entered k
          (λ q ne. ap (λ (d : List ℕ → Node). d q) d) o' refl,
    )

-- The command that finds no file to read.
no_file_lem :
    (xxh64 : List ℕ → ℕ) (key : List ℕ) (body : ℕ → M Answer) (value : List ℕ → ℕ) (s : Store)
    → Reads body value
    → s.disk (key_path s.dir (xxh64 key)) ≡ absent
    → s.xxtable (xxh64 key % desc_hash_table_size) ≡ none
    → CanOpen s (xxh64 key) []
    → (t : Store) × (reading xxh64 key body s ≡ some (number (value []), t))
      × Stays s t (xxh64 key) (key_path s.dir (xxh64 key)) (bit_at [])
unfolding reading
no_file_lem xxh64 key body value s r e h c =
    let (t, run, w) = prepare_file_missing xxh64 key s none (misses s (xxh64 key) h) e c in
    (
      t,
      rw (run, ◌>>=◌, r.of_nothing) (ap (λ a. some (a, t)) nothing-number),
      record {
        waits = record {
          bytes = [];
          head = ap (λ (h : ℕ → Option ℕ). h (xxh64 key % desc_hash_table_size)) w.heads ∙ h;
          opens = w.opens;
          there = ap (λ d. key_path d (xxh64 key)) w.dir;
          same = refl;
        };
        change = Waits-Change s t (xxh64 key) none w;
        used = w.used;
      },
    )

read_lem :
    (xxh64 : List ℕ → ℕ) (key : List ℕ) (body : ℕ → M Answer) (value : List ℕ → ℕ) (s : Store)
    (bs : List ℕ) (n : Node)
    → Reads body value
    → s.disk (key_path s.dir (xxh64 key)) ≡ n
    → s.xxtable (xxh64 key % desc_hash_table_size) ≡ none
    → CanOpen s (xxh64 key) bs
    → (t : Store) × (reading xxh64 key body s ≡ some (number (value bs), t))
      × Went s t (xxh64 key) (key_path s.dir (xxh64 key)) (bit_at bs)
read_lem xxh64 key body value s bs absent r e h c =
    let nil : bs ≡ [] = subst (λ n. Gives n bs) e c.file in
    let (t, run, w) =
      no_file_lem xxh64 key body value s r e h (subst (CanOpen s (xxh64 key)) nil c) in
    (
      t,
      subst (λ bs. reading xxh64 key body s ≡ some (number (value bs), t)) (sym nil) run,
      inr (
          subst (λ bs. Stays s t (xxh64 key) (key_path s.dir (xxh64 key)) (bit_at bs)) (sym nil) w),
    )
read_lem xxh64 key body value s bs (directory a) r e h c = absurd (subst (λ n. Gives n bs) e c.file)
read_lem xxh64 key body value s bs (regular cs) r e h c =
    let (dt, t, run, k) = first_read_lem xxh64 key body value s bs cs r e h c in
    (t, run, inl (dt, k))

-- A line that reads.
Waiting-reading :
    (xxh64 : List ℕ → ℕ) (key : List ℕ) (body : ℕ → M Answer) (value : List ℕ → ℕ) (line : List ℕ)
    (s : Store) (path : List ℕ) (bits : ℕ → ℕ) (f : (ℕ → ℕ) → ℕ)
    → Reads body value
    → parse_and_execute xxh64 line ≡ reading xxh64 key body
    → ((bs : List ℕ) → value bs ≡ f (bit_at bs))
    → Waiting s (xxh64 key) path bits
    → (t : Store) × (parse_and_execute xxh64 line s ≡ some (number (f bits), t))
      × Went s t (xxh64 key) path bits
Waiting-reading xxh64 key body value line s path bits f r runs e w =
    let (t, run, k) =
      read_lem xxh64 key body value s w.bytes (s.disk (key_path s.dir (xxh64 key))) r refl w.head
        w.opens in
    (
      t,
      ap (λ m. m s) runs ∙ run ∙ ap (λ n. some (number n, t)) (e w.bytes ∙ ap f w.same),
      subst (λ p. Went s t (xxh64 key) p bits) w.there
          (subst (Went s t (xxh64 key) (key_path s.dir (xxh64 key))) w.same k),
    )

pub waiting_lem :
    (xxh64 : List ℕ → ℕ) (key : List ℕ) (op : BitOp) (line : List ℕ) (s : Store) (path : List ℕ)
    (bits : ℕ → ℕ)
    → IsLine xxh64 key op line
    → Waiting s (xxh64 key) path bits
    → (t : Store) × (parse_and_execute xxh64 line s ≡ some (number (asked op bits), t))
      × Went s t (xxh64 key) path (left op bits)
waiting_lem xxh64 key (put i v) line s path bits l w =
    let cmd : SetbitCmd = record { key = key; offset = i; value = v } in
    let (dt, t, run, k) = first_set_lem xxh64 cmd s w.bytes l.is_bit w.head w.opens in
    (
      t,
      ap (λ m. m s) (SetbitLine-runs xxh64 line cmd l)
          ∙ run
          ∙ ap (λ (f : ℕ → ℕ). some (number (f i), t)) w.same,
      inl (
        dt,
        subst (λ p. Took s t (xxh64 key) dt p (put_bit i v bits)) w.there
            (subst (λ f. Took s t (xxh64 key) dt (key_path s.dir (xxh64 key)) (put_bit i v f))
              w.same k),
      ),
    )
waiting_lem xxh64 key (look i) line s path bits l w =
    let cmd : GetbitCmd = record { key = key; offset = i } in
    Waiting-reading xxh64 key (get_body cmd) (λ bs. bit_at bs i) line s path bits (λ f. f i)
      (get-Reads cmd) (GetbitLine-runs xxh64 line cmd l ∙ run_getbit-reading xxh64 cmd) (λ bs. refl)
      w
waiting_lem xxh64 key (tally a b) line s path bits l w =
    let cmd : BitcountCmd = record { key = key; start = pos a; end = pos b } in
    Waiting-reading xxh64 key (count_body cmd) (λ bs. ones_between bs (pos a) (pos b)) line s path
      bits (tallied a b) (count-Reads cmd) (BitcountLine-runs xxh64 line cmd l)
      (λ bs. ones_between-tallied bs a b) w
