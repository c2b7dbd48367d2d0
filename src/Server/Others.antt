-- ===== src/Server/Others.antt =====
-- A line of one key does nothing to another: what is known of a key stays true under the changes of another.
use solidbits.Prelude.{
  ℕ, ◌%◌, ◌^◌, ◌≡◌, ◌≢◌, ◌<◌, sym, ap, subst, ◌∙◌, Option, none, some, List, [], ◌≤◌, length, arith,
}
use solidbits.Store.{Store, Desc}
use solidbits.Stdio.Transfer.{view_desc}
use solidbits.Stdio.Holds.{Holds}
use solidbits.Popcount.Spec.{AreBytes}
use solidbits.Paths.{level_one, level_two, key_path}
use solidbits.Paths.Hex.{key_path_injective}
use solidbits.Paths.Lengths.{length-level_one, length-level_two, length-key_path}
use solidbits.Paths.Made.{CanBeDir}
use solidbits.Bitops.Bit.{bit_at}
use solidbits.Table.{desc_hash_table_size}
use solidbits.Prepare.Open.{Gives}
use solidbits.Server.Change.{Change}
use solidbits.Server.Kept.{Keeping}
use solidbits.Server.Went.{Waiting}

-- The key has no descriptor, and can get one.
pub record Closed (s : Store) (dir : List ℕ) (hash : ℕ) (bits : ℕ → ℕ) : Type 0 where
  pub content : List ℕ
  pub head : s.xxtable (hash % desc_hash_table_size) ≡ none
  pub short : length dir ≤ 236
  pub one : CanBeDir (s.disk (level_one dir hash))
  pub two : CanBeDir (s.disk (level_two dir hash))
  pub file : Gives (s.disk (key_path dir hash)) content
  pub bytes : AreBytes content
  pub same : bit_at content ≡ bits

-- The key has this descriptor, or none.
abbrev pub KeyIs : Store → List ℕ → ℕ → Option ℕ → (ℕ → ℕ) → Type 0
KeyIs s dir hash none bits = Closed s dir hash bits
KeyIs s dir hash (some dt) bits = Keeping s hash dt (key_path dir hash) bits

pub Waiting-KeyIs :
    (s : Store) (hash : ℕ) (path : List ℕ) (bits : ℕ → ℕ)
    → Waiting s hash path bits
    → KeyIs s s.dir hash none bits
Waiting-KeyIs s hash path bits w = record {
  content = w.bytes;
  head = w.head;
  short = w.opens.short;
  one = w.opens.one;
  two = w.opens.two;
  file = w.opens.file;
  bytes = w.opens.bytes;
  same = w.same;
}

pub Keeping-KeyIs :
    (s : Store) (hash dt : ℕ) (path : List ℕ) (bits : ℕ → ℕ)
    → Keeping s hash dt path bits
    → KeyIs s s.dir hash (some dt) bits
Keeping-KeyIs s hash dt path bits k = subst (λ p. Keeping s hash dt p bits) (sym k.there) k

-- Two hashes of 64 bits in different buckets.
pub record Apart (a b : ℕ) : Type 0 where
  pub buckets : a % desc_hash_table_size ≢ b % desc_hash_table_size
  pub fits : a < 2 ^ 64
  pub others_fits : b < 2 ^ 64

other_path : (dir : List ℕ) (a b : ℕ) → Apart a b → key_path dir a ≢ key_path dir b
other_path dir a b p e =
    p.buckets
      (ap (λ h. h % desc_hash_table_size) (key_path_injective dir a b p.fits p.others_fits e))

not_one : (dir : List ℕ) (a b : ℕ) → key_path dir a ≢ level_one dir b
not_one dir a b e = omega (arith, ap length e, length-key_path dir a, length-level_one dir b)

not_two : (dir : List ℕ) (a b : ℕ) → key_path dir a ≢ level_two dir b
not_two dir a b e = omega (arith, ap length e, length-key_path dir a, length-level_two dir b)

Holds-other :
    (s t : Store) (dt : ℕ) (path bs : List ℕ)
    → view_desc (t.descs dt) ≡ view_desc (s.descs dt)
    → t.disk path ≡ s.disk path
    → t.faults ≡ []
    → Holds s dt path bs
    → Holds t dt path bs
Holds-other s t dt path bs e d q h = record {
  is_open = record {
    stream = ap (λ (x : Desc). x.fd) e ∙ h.is_open.stream;
    file = d ∙ h.is_open.file;
    quiet = q;
  };
  synced = ap (λ (x : Desc). x.length) e ∙ h.synced;
  bytes = h.bytes;
}

module _ (s t : Store) (a b : ℕ) (d : Option ℕ) where
  stays :
      (slot : Option ℕ) (bits : ℕ → ℕ)
      → Change s t a d
      → Apart a b
      → t.faults ≡ []
      → ((dt : ℕ) → d ≡ some dt → (s.descs dt).hash ≢ b)
      → KeyIs s s.dir b slot bits
      → KeyIs t s.dir b slot bits
  stays none bits c p q other k = record {
    content = k.content;
    head = c.heads (b % desc_hash_table_size) p.buckets ∙ k.head;
    short = k.short;
    one = c.dirs (level_one s.dir b) (not_one s.dir a b) k.one;
    two = c.dirs (level_two s.dir b) (not_two s.dir a b) k.two;
    file =
        subst (λ n. Gives n k.content)
          (sym (c.files (key_path s.dir b) (length-key_path s.dir b) (other_path s.dir a b p)))
          k.file;
    bytes = k.bytes;
    same = k.same;
  }
  stays (some dt) bits c p q other k =
      let at_dt : view_desc (t.descs dt) ≡ view_desc (s.descs dt) =
        c.descs dt (λ e. other dt e k.has_hash) in
      record {
        bytes = k.bytes;
        head = c.heads (b % desc_hash_table_size) p.buckets ∙ k.head;
        has_hash = ap (λ (x : Desc). x.hash) at_dt ∙ k.has_hash;
        holds =
            Holds-other s t dt (key_path s.dir b) k.bytes at_dt
              (c.files (key_path s.dir b) (length-key_path s.dir b) (other_path s.dir a b p)) q
              k.holds;
        there = ap (λ dir. key_path dir b) c.dir;
        same = k.same;
      }

  -- What another key changes leaves this one as it is.
  pub KeyIs-Change :
      (slot : Option ℕ) (bits : ℕ → ℕ)
      → Change s t a d
      → Apart a b
      → t.faults ≡ []
      → ((dt : ℕ) → d ≡ some dt → (s.descs dt).hash ≢ b)
      → KeyIs s s.dir b slot bits
      → KeyIs t t.dir b slot bits
  KeyIs-Change slot bits c p q other k =
      subst (λ dir. KeyIs t dir b slot bits) (sym c.dir) (stays slot bits c p q other k)
