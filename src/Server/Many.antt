-- ===== src/Server/Many.antt =====
-- Several keys as their clients see them: an array of bits each, whatever lines they send in what order.
use solidbits.Prelude.{
  ◌∷◌, map, ℕ, ◌%◌, ◌≡◌, ◌≤◌, ◌<◌, refl, sym, ap, subst, ◌∙◌, inl, inr, Option-cases, Option, none,
  some, List, [], arith,
}
use solidbits.Store.{◌>>=◌, Store, Desc, update}
use solidbits.Paths.{key_path}
use solidbits.Table.{desc_hash_table_size}
use solidbits.Parser.Execute.{parse_and_execute}
use solidbits.Parser.Cached.{number}
use solidbits.Server.Ops.{BitOp, asked, left, IsLine}
use solidbits.Server.Kept.{Keeping, kept_lem}
use solidbits.Server.Went.{Waiting, Went}
use solidbits.Server.First.{waiting_lem}
use solidbits.Server.Others.{KeyIs}
use solidbits.Server.{serve_lines}
use solidbits.Server.Bits.{Ready}
use solidbits.Server.Chains.{main-Running}
use solidbits.Startup.Address.{Config}
use solidbits.Startup.Options.{Opt, System}
use solidbits.Startup.Run.{main, serves}
use solidbits.Startup.Started.{Running}
use solidbits.Bitops.Bit.{bit_at}
use solidbits.Prepare.Open.{Gives}
use solidbits.Server.Keys.{AreApart, Inv, hit_lem, went_lem, waits}

-- An operation on one of several keys: the numbers that such operations return, and the bits that they
-- leave to each key.
unfoldable pub run_keys : List (ℕ × BitOp) → (ℕ → ℕ → ℕ) → List ℕ
run_keys [] bits = []
run_keys ((k, op) ∷ ops) bits = asked op (bits k) ∷ run_keys ops (update bits k (left op (bits k)))

unfoldable pub keys_after : List (ℕ × BitOp) → (ℕ → ℕ → ℕ) → ℕ → ℕ → ℕ
keys_after [] bits = bits
keys_after ((k, op) ∷ ops) bits = keys_after ops (update bits k (left op (bits k)))

-- The lines that ask for them, of the first `n` keys.
pub data AreKeyLines (xxh64 : List ℕ → ℕ) (key : ℕ → List ℕ) (n : ℕ)
    : List (ℕ × BitOp) → List (List ℕ) → Type 0 where
  no_line : AreKeyLines xxh64 key n [] []
  one_more :
      {k : ℕ}
      → {op : BitOp} → {ops : List (ℕ × BitOp)} → {line : List ℕ} → {lines : List (List ℕ)} → k < n
      → IsLine xxh64 (key k) op line
      → AreKeyLines xxh64 key n ops lines
      → AreKeyLines xxh64 key n ((k, op) ∷ ops) (line ∷ lines)

Went-dir :
    (s t : Store) (hash : ℕ) (path : List ℕ) (bits : ℕ → ℕ)
    → Went s t hash path bits
    → t.dir ≡ s.dir
Went-dir s t hash path bits (inl (dt, w)) = w.change.dir
Went-dir s t hash path bits (inr w) = w.change.dir

KeyIs-file :
    (s : Store) (hash : ℕ) (slot : Option ℕ) (bits : ℕ → ℕ)
    → KeyIs s s.dir hash slot bits
    → (now : List ℕ) × Gives (s.disk (key_path s.dir hash)) now × (bit_at now ≡ bits)
KeyIs-file s hash none bits k = (k.content, k.file, k.same)
KeyIs-file s hash (some dt) bits k =
    (k.bytes, subst (λ n. Gives n k.bytes) (sym k.holds.is_open.file) refl, k.same)

module _ (xxh64 : List ℕ → ℕ) (key : ℕ → List ℕ) {n : ℕ} (n_fits : n ≤ 8192)
    (apart : AreApart n (λ k. xxh64 (key k))) where
  abbrev hash : ℕ → ℕ
  hash k = xxh64 (key k)

  -- A line of one of the keys keeps the invariant, and its answer and what it leaves are those of an
  -- operation on the bits of that key.
  key_line_lem :
      (k : ℕ) (op : BitOp) (line : List ℕ) (s : Store) (slot : ℕ → Option ℕ) (bits : ℕ → ℕ → ℕ)
      → k < n
      → IsLine xxh64 (key k) op line
      → Inv s n hash slot bits
      → (t : Store) × (parse_and_execute xxh64 line s ≡ some (number (asked op (bits k)), t))
        × (t.dir ≡ s.dir)
        × (after : ℕ → Option ℕ) × Inv t n hash after (update bits k (left op (bits k)))
  key_line_lem k op line s slot bits hk l v = elim (Option-cases (slot k)) [
    | inl e ↦
        let path : List ℕ = key_path s.dir (hash k) in
        let new : ℕ → ℕ = left op (bits k) in
        let w : Waiting s (hash k) path (bits k) =
          waits n_fits apart s slot bits k v hk e
            (subst (λ o. KeyIs s s.dir (hash k) o (bits k)) e (v.each k hk)) in
        let (t, run, went) = waiting_lem xxh64 (key k) op line s path (bits k) l w in
        let (after, v') = went_lem n_fits apart s t slot bits k path new v hk e went in
        (t, run, Went-dir s t (hash k) path new went, after, v')
    | inr (dt, e) ↦
        let path : List ℕ = key_path s.dir (hash k) in
        let kept : Keeping s (hash k) dt path (bits k) =
          subst (λ o. KeyIs s s.dir (hash k) o (bits k)) e (v.each k hk) in
        let (t, run, k2, c, i) = kept_lem xxh64 (key k) op line s dt path (bits k) l kept in
        (
          t,
          run,
          c.dir,
          slot,
          hit_lem n_fits apart s t slot bits k dt path (bits k) (left op (bits k)) v hk e kept k2 c
              i,
        )
  ]

  key_lines_lem :
      (ops : List (ℕ × BitOp)) (lines : List (List ℕ)) (s : Store) (slot : ℕ → Option ℕ)
      (bits : ℕ → ℕ → ℕ)
      → AreKeyLines xxh64 key n ops lines
      → Inv s n hash slot bits
      → (t : Store) × (serve_lines xxh64 lines s ≡ some (map number (run_keys ops bits), t))
        × (t.dir ≡ s.dir)
        × (after : ℕ → Option ℕ) × Inv t n hash after (keys_after ops bits)
  unfolding serve_lines run_keys keys_after
  key_lines_lem _ _ s slot bits no_line v = (s, refl, refl, slot, v)
  key_lines_lem _ _ s slot bits (one_more {k} {op} {ops} {line} {lines} hk l ls) v =
      let (t, run, dir, after, v') = key_line_lem k op line s slot bits hk l v in
      let (u, rest, dir', last, v'') =
        key_lines_lem ops lines t after (update bits k (left op (bits k))) ls v' in
      (u, rw (run, ◌>>=◌, rest) refl, dir' ∙ dir, last, v'')

  -- A server that has started.
  Running-Inv :
      (sys : System) (s t : Store) (c : Config) (bs : ℕ → List ℕ)
      → Running sys s c t
      → t.faults ≡ []
      → ((k : ℕ) → k < n → Ready t (hash k) (bs k))
      → Inv t n hash (λ k. none) (λ k. bit_at (bs k))
  Running-Inv sys s t c bs r q ready = record {
    quiet = q;
    idx = omega (arith, r.idx);
    free = λ i h. ap (λ (descs : ℕ → Desc). (descs i).hash) r.descs;
    each = λ k hk. record {
      content = bs k;
      head = ap (λ (h : ℕ → Option ℕ). h (hash k % desc_hash_table_size)) r.xxtable;
      short = (ready k hk).short;
      one = (ready k hk).one;
      two = (ready k hk).two;
      file = (ready k hk).file;
      bytes = (ready k hk).bytes;
      same = refl;
    };
  }

-- A server that has started is a store of bits for up to 8192 keys at once. Let the hashes of the keys
-- be below 2^64, not 0, and in different buckets, let the directory have at most 236 bytes, and let no
-- call fail; let each key's file be there
-- with some bytes or not be there, and its directories be there or free to be made. Then for every
-- sequence of SETBIT and GETBIT lines, and of BITCOUNT lines with two numbers that are not negative,
-- of these keys and in any order, each of which passes the checks of the parser (enough words, a key of
-- at most 64 bytes, an offset in range, a bit that is 0 or 1), the server answers each of them with the number that an array of
-- bits of that key would give, that starts as the bits of its file, or all 0, and in the end the file
-- of every key has the bits that its array has, or is missing and they are all 0: no key sees what is
-- done to another.
pub serves_keys :
    (xxh64 : List ℕ → ℕ) (sys : System) (opts : List Opt) (s : Store) (c : Config) (t : Store)
    (key bs : ℕ → List ℕ) (n : ℕ) (ops : List (ℕ × BitOp)) (lines : List (List ℕ))
    → main sys opts s ≡ some (serves c, t)
    → n ≤ 8192
    → AreApart n (λ k. xxh64 (key k))
    → t.faults ≡ []
    → ((k : ℕ) → k < n → Ready t (xxh64 (key k)) (bs k))
    → AreKeyLines xxh64 key n ops lines
    → (u : Store) × (serve_lines xxh64 lines t
        ≡ some (map number (run_keys ops (λ k. bit_at (bs k))), u))
      × ((k : ℕ)
          → k < n
          → (now : List ℕ) × Gives (u.disk (key_path t.dir (xxh64 (key k)))) now
            × (bit_at now ≡ keys_after ops (λ k. bit_at (bs k)) k))
serves_keys xxh64 sys opts s c t key bs n ops lines h n_fits apart q ready ls =
    let (u, run, dir, slot, v) =
      key_lines_lem xxh64 key n_fits apart ops lines t (λ k. none) (λ k. bit_at (bs k)) ls
        (Running-Inv xxh64 key n_fits apart sys s t c bs (main-Running sys opts s c t h) q ready) in
    (
      u,
      run,
      λ k hk.
          subst
            (λ d.
              (now : List ℕ) × Gives (u.disk (key_path d (xxh64 (key k)))) now
              × (bit_at now ≡ keys_after ops (λ k. bit_at (bs k)) k))
            dir (KeyIs-file u (xxh64 (key k)) (slot k) _ (v.each k hk)),
    )
