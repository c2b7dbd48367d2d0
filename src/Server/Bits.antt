-- ===== src/Server/Bits.antt =====
-- A key as its clients see it: an array of bits, through whichever lines they send.
use solidbits.Prelude.{
  ◌≤◌, length, ℕ, ◌%◌, ◌≡◌, inl, inr, ◌⊎◌, refl, sym, ap, subst, Option, some, List, [], map, arith,
}
use solidbits.Store.{Store, Desc, ◌>>=◌}
use solidbits.Paths.{level_one, level_two, key_path}
use solidbits.Paths.Made.{CanBeDir}
use solidbits.Popcount.Spec.{AreBytes}
use solidbits.Bitops.Bit.{bit_at}
use solidbits.Table.{desc_hash_table_size}
use solidbits.Prepare.Open.{Gives}
use solidbits.Prepare.Slot.{CanOpen}
use solidbits.Parser.Execute.{parse_and_execute}
use solidbits.Parser.Cached.{number}
use solidbits.Startup.Address.{Config}
use solidbits.Startup.Options.{Opt, System}
use solidbits.Startup.Run.{main, serves}
use solidbits.Startup.Started.{Running}
use solidbits.Server.{serve_lines}
use solidbits.Server.Chains.{main-Running}
use solidbits.Server.Ops.{
  BitOp, asked, left, run_bits, bits_after, IsLine, AreLines, no_line, one_more,
}
use solidbits.Server.Kept.{Keeping, kept_lem}
use solidbits.Server.Went.{Waiting, Went}
use solidbits.Server.First.{waiting_lem}

-- What a key needs so that a server that has just started can open it: the directory is short enough that
-- the path of the key fits in `filename` with a null byte, its directories are there or
-- can be made, its file has these bytes, or there is none and there are no bytes, and no call fails.
pub record Ready (t : Store) (hash : ℕ) (bs : List ℕ) : Type 0 where
  pub quiet : t.faults ≡ []
  pub short : length t.dir ≤ 236
  pub one : CanBeDir (t.disk (level_one t.dir hash))
  pub two : CanBeDir (t.disk (level_two t.dir hash))
  pub file : Gives (t.disk (key_path t.dir hash)) bs
  pub bytes : AreBytes bs

pub Ready-CanOpen :
    (sys : System) (s t : Store) (c : Config) (hash : ℕ) (bs : List ℕ)
    → Running sys s c t
    → Ready t hash bs
    → CanOpen t hash bs
Ready-CanOpen sys s t c hash bs r k = record {
  slot = (0, omega (arith, r.idx), omega arith, ap (λ (descs : ℕ → Desc). (descs 0).hash) r.descs);
  quiet = k.quiet;
  short = k.short;
  one = k.one;
  two = k.two;
  file = k.file;
  bytes = k.bytes;
}

-- The key is open or can be opened.
abbrev Serving : Store → ℕ → List ℕ → (ℕ → ℕ) → Type 0
Serving s hash path bits = ((dt : ℕ) × Keeping s hash dt path bits) ⊎ Waiting s hash path bits

Went-Serving :
    (s t : Store) (hash : ℕ) (path : List ℕ) (bits : ℕ → ℕ)
    → Went s t hash path bits
    → Serving t hash path bits
Went-Serving s t hash path bits (inl (dt, k)) = inl (dt, k.kept)
Went-Serving s t hash path bits (inr w) = inr w.waits

serving_lem :
    (xxh64 : List ℕ → ℕ) (key : List ℕ) (op : BitOp) (line : List ℕ) (s : Store) (path : List ℕ)
    (bits : ℕ → ℕ)
    → IsLine xxh64 key op line
    → Serving s (xxh64 key) path bits
    → (t : Store) × (parse_and_execute xxh64 line s ≡ some (number (asked op bits), t))
      × Serving t (xxh64 key) path (left op bits)
serving_lem xxh64 key op line s path bits l (inl (dt, k)) =
    let (t, run, k', c, i) = kept_lem xxh64 key op line s dt path bits l k in (t, run, inl (dt, k'))
serving_lem xxh64 key op line s path bits l (inr w) =
    let (t, run, k) = waiting_lem xxh64 key op line s path bits l w in
    (t, run, Went-Serving s t (xxh64 key) path (left op bits) k)

lines_lem :
    (xxh64 : List ℕ → ℕ) (key : List ℕ) (ops : List BitOp) (lines : List (List ℕ)) (s : Store)
    (path : List ℕ) (bits : ℕ → ℕ)
    → AreLines xxh64 key ops lines
    → Serving s (xxh64 key) path bits
    → (t : Store) × (serve_lines xxh64 lines s ≡ some (map number (run_bits ops bits), t))
      × Serving t (xxh64 key) path (bits_after ops bits)
unfolding serve_lines run_bits bits_after
lines_lem xxh64 key _ _ s path bits no_line k = (s, refl, k)
lines_lem xxh64 key _ _ s path bits (one_more {op} {ops} {line} {lines} l ls) k =
    let (t, run, k') = serving_lem xxh64 key op line s path bits l k in
    let (u, rest, k'') = lines_lem xxh64 key ops lines t path (left op bits) ls k' in
    (u, rw (run, ◌>>=◌, rest) refl, k'')

Serving-file :
    (s : Store) (hash : ℕ) (path : List ℕ) (bits : ℕ → ℕ)
    → Serving s hash path bits
    → (now : List ℕ) × Gives (s.disk path) now × (bit_at now ≡ bits)
Serving-file s hash path bits (inl (dt, k)) =
    (k.bytes, subst (λ n. Gives n k.bytes) (sym k.holds.is_open.file) refl, k.same)
Serving-file s hash path bits (inr w) =
    (w.bytes, subst (λ p. Gives (s.disk p) w.bytes) w.there w.opens.file, w.same)

-- A server that has started is a store of bits. Let its directory have at most 236 bytes, the key's file
-- be there with some bytes or not be there, its directories be there or free to be made, and no call
-- fail. Then for every sequence of SETBIT and GETBIT lines of that key, and of BITCOUNT lines with two
-- numbers that are not negative, each of which passes the checks of the parser (enough words, a key of
-- at most 64 bytes, an offset in range, a bit that is 0 or 1), the server answers each of them with the number that an array of bits would give, that starts as the
-- bits of the file, or all 0, and in the end the file has the bits that the array has; it may still
-- be missing if they are all 0. Nothing is asked of the hash of the key.
pub serves_bits :
    (xxh64 : List ℕ → ℕ) (sys : System) (opts : List Opt) (s : Store) (c : Config) (t : Store)
    (key bs : List ℕ) (ops : List BitOp) (lines : List (List ℕ))
    → main sys opts s ≡ some (serves c, t)
    → Ready t (xxh64 key) bs
    → AreLines xxh64 key ops lines
    → (u : Store) × (serve_lines xxh64 lines t ≡ some (map number (run_bits ops (bit_at bs)), u))
      × (now : List ℕ) × Gives (u.disk (key_path t.dir (xxh64 key))) now
      × (bit_at now ≡ bits_after ops (bit_at bs))
serves_bits xxh64 sys opts s c t key bs ops lines h k ls =
    let r : Running sys s c t = main-Running sys opts s c t h in
    let waiting : Waiting t (xxh64 key) (key_path t.dir (xxh64 key)) (bit_at bs) = record {
      bytes = bs;
      head = ap (λ (h : ℕ → Option ℕ). h (xxh64 key % desc_hash_table_size)) r.xxtable;
      opens = Ready-CanOpen sys s t c (xxh64 key) bs r k;
      there = refl;
      same = refl;
    } in
    let (u, run, last) =
      lines_lem xxh64 key ops lines t (key_path t.dir (xxh64 key)) (bit_at bs) ls (inr waiting) in
    let (now, file, same) = Serving-file u (xxh64 key) (key_path t.dir (xxh64 key)) _ last in
    (u, run, now, file, same)
