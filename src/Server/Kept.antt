-- ===== src/Server/Kept.antt =====
-- Lines of a key whose descriptor is open, in step with its file.
use solidbits.Prelude.{ℕ, ◌%◌, ◌≡◌, ◌≢◌, ap, fun_ext, ◌∙◌, refl, some, Option, List}
use solidbits.Store.{M, Store, Node, regular}
use solidbits.Store.Keys.{SameKeys}
use solidbits.Store.Paths.{update_disk_ne}
use solidbits.Stdio.Holds.{Holds}
use solidbits.Paths.{key_path}
use solidbits.Bitops.Bit.{bit_at}
use solidbits.Bitops.SetGet.{BitSet}
use solidbits.Table.{desc_hash_table_size}
use solidbits.Prepare.{found, walk}
use solidbits.Prepare.Lookup.{looked_up}
use solidbits.Prepare.Fresh.{walk_head}
use solidbits.Parser.Execute.{parse_and_execute}
use solidbits.Parser.Cached.{number}
use solidbits.Parser.Line.{setbit_line_lem, GetbitLine-runs}
use solidbits.Prelude.Int.{pos}
use solidbits.Parser.Reading.{
  Reads, reading, reading_hit, get_body, get-Reads, run_getbit-reading, count_body, count-Reads,
}
use solidbits.Parser.CountLine.{BitcountLine-runs}
use solidbits.Parser.Answer.{Answer}
use solidbits.Bitops.{GetbitCmd, BitcountCmd}
use solidbits.Bitops.Count.{ones_between}
use solidbits.Bitops.Tally.{tallied, ones_between-tallied}
use solidbits.Server.Ops.{BitOp, put, look, tally, put_bit, asked, left, IsLine}
use solidbits.Server.Change.{Change, SameKeys-Change}

-- The key has an open descriptor at the head of its chain, and its file has these bits.
pub record Keeping (s : Store) (hash dt : ℕ) (path : List ℕ) (bits : ℕ → ℕ) : Type 0 where
  pub bytes : List ℕ
  pub head : s.xxtable (hash % desc_hash_table_size) ≡ some dt
  pub has_hash : (s.descs dt).hash ≡ hash
  pub holds : Holds s dt path bytes
  pub there : key_path s.dir hash ≡ path
  pub same : bit_at bytes ≡ bits

Keeping-found :
    (s : Store) (hash dt : ℕ) (path : List ℕ) (bits : ℕ → ℕ)
    → Keeping s hash dt path bits
    → looked_up s hash ≡ found dt
Keeping-found s hash dt path bits k =
    ap (walk s.descs hash) k.head ∙ walk_head s.descs hash dt k.has_hash

-- After a command, with the bits that it leaves.
pub Keeping-after :
    (s t : Store) (hash dt : ℕ) (path now : List ℕ) (bits new : ℕ → ℕ)
    → Keeping s hash dt path bits
    → SameKeys s t dt
    → Holds t dt path now
    → bit_at now ≡ new
    → Keeping t hash dt path new
Keeping-after s t hash dt path now bits new k same o e = record {
  bytes = now;
  head = ap (λ (h : ℕ → Option ℕ). h (hash % desc_hash_table_size)) same.heads ∙ k.head;
  has_hash = same.hashes dt ∙ k.has_hash;
  holds = o;
  there = ap (λ p. key_path p hash) same.dir ∙ k.there;
  same = e;
}

-- Only the file of the key has changed.
pub BitSet-disk :
    (s t : Store) (hash dt : ℕ) (path bs : List ℕ) (i v : ℕ)
    → key_path s.dir hash ≡ path
    → BitSet s t dt path bs i v
    → (q : List ℕ) → key_path s.dir hash ≢ q
    → t.disk q ≡ s.disk q
BitSet-disk s t hash dt path bs i v there b q ne =
    ap (λ (d : List ℕ → Node). d q) b.others
    ∙ update_disk_ne s.disk path q (regular b.now) (λ e. ne (there ∙ e))

-- A line that reads.
Keeping-reading :
    (xxh64 : List ℕ → ℕ) (key : List ℕ) (body : ℕ → M Answer) (value : List ℕ → ℕ) (line : List ℕ)
    (s : Store) (dt : ℕ) (path : List ℕ) (bits : ℕ → ℕ) (f : (ℕ → ℕ) → ℕ)
    → Reads body value
    → parse_and_execute xxh64 line ≡ reading xxh64 key body
    → ((bs : List ℕ) → value bs ≡ f (bit_at bs))
    → Keeping s (xxh64 key) dt path bits
    → (t : Store) × (parse_and_execute xxh64 line s ≡ some (number (f bits), t))
      × Keeping t (xxh64 key) dt path bits
      × Change s t (xxh64 key) (some dt)
      × (t.idx ≡ s.idx)
Keeping-reading xxh64 key body value line s dt path bits f r runs e k =
    let (t, run, o, d, same) =
      reading_hit xxh64 key body value s dt path k.bytes r
        (Keeping-found s (xxh64 key) dt path bits k) k.holds in
    (
      t,
      ap (λ m. m s) runs ∙ run ∙ ap (λ n. some (number n, t)) (e k.bytes ∙ ap f k.same),
      Keeping-after s t (xxh64 key) dt path k.bytes bits bits k same o k.same,
      SameKeys-Change s t (xxh64 key) dt same (λ q ne. ap (λ (d : List ℕ → Node). d q) d),
      same.idx,
    )

pub kept_lem :
    (xxh64 : List ℕ → ℕ) (key : List ℕ) (op : BitOp) (line : List ℕ) (s : Store) (dt : ℕ)
    (path : List ℕ) (bits : ℕ → ℕ)
    → IsLine xxh64 key op line
    → Keeping s (xxh64 key) dt path bits
    → (t : Store) × (parse_and_execute xxh64 line s ≡ some (number (asked op bits), t))
      × Keeping t (xxh64 key) dt path (left op bits)
      × Change s t (xxh64 key) (some dt)
      × (t.idx ≡ s.idx)
kept_lem xxh64 key (put i v) line s dt path bits l k =
    let finds : looked_up s (xxh64 key) ≡ found dt = Keeping-found s (xxh64 key) dt path bits k in
    let (t, run, b) = setbit_line_lem xxh64 line _ s dt path k.bytes l finds k.holds in
    (
      t,
      run ∙ ap (λ (f : ℕ → ℕ). some (number (f i), t)) k.same,
      Keeping-after s t (xxh64 key) dt path b.now bits (put_bit i v bits) k b.keys b.holds
          (fun_ext b.bits ∙ ap (put_bit i v) k.same),
      SameKeys-Change s t (xxh64 key) dt b.keys
          (BitSet-disk s t (xxh64 key) dt path k.bytes i v k.there b),
      b.keys.idx,
    )
kept_lem xxh64 key (look i) line s dt path bits l k =
    let cmd : GetbitCmd = record { key = key; offset = i } in
    Keeping-reading xxh64 key (get_body cmd) (λ bs. bit_at bs i) line s dt path bits (λ f. f i)
      (get-Reads cmd) (GetbitLine-runs xxh64 line cmd l ∙ run_getbit-reading xxh64 cmd) (λ bs. refl)
      k
kept_lem xxh64 key (tally a b) line s dt path bits l k =
    let cmd : BitcountCmd = record { key = key; start = pos a; end = pos b } in
    Keeping-reading xxh64 key (count_body cmd) (λ bs. ones_between bs (pos a) (pos b)) line s dt
      path bits (tallied a b) (count-Reads cmd) (BitcountLine-runs xxh64 line cmd l)
      (λ bs. ones_between-tallied bs a b) k
