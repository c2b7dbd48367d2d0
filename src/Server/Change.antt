-- ===== src/Server/Change.antt =====
-- What a line of one key may change, as far as other keys can tell.
use solidbits.Prelude.{
  ℕ, ◌+◌, ◌%◌, ◌≡◌, ◌≢◌, sym, ap, subst, ◌∙◌, Option, none, some, List, length, arith,
}
use solidbits.Store.{Store, Desc}
use solidbits.Store.Keys.{SameKeys}
use solidbits.Stdio.Transfer.{view_desc}
use solidbits.Paths.{level_one, level_two, key_path}
use solidbits.Paths.Lengths.{length-level_one, length-level_two}
use solidbits.Paths.Made.{CanBeDir}
use solidbits.Table.{desc_hash_table_size}
use solidbits.Prepare.Fresh.{Opens, Entered}
use solidbits.Prepare.Missing.{Waits}

-- No entry but `d` changes but for the position of its stream, no head but that of the bucket of the
-- hash, and of files of its kind only the one of the hash; what can be a directory still can.
pub record Change (s t : Store) (hash : ℕ) (d : Option ℕ) : Type 0 where
  pub dir : t.dir ≡ s.dir
  pub descs : (j : ℕ) → d ≢ some j → view_desc (t.descs j) ≡ view_desc (s.descs j)
  pub heads : (b : ℕ) → hash % desc_hash_table_size ≢ b → t.xxtable b ≡ s.xxtable b
  pub dirs : (q : List ℕ) → key_path s.dir hash ≢ q → CanBeDir (s.disk q) → CanBeDir (t.disk q)
  pub files :
      (q : List ℕ) → length q ≡ length s.dir + 19 → key_path s.dir hash ≢ q → t.disk q ≡ s.disk q

pub Change-trans :
    (s t u : Store) (hash : ℕ) (d : Option ℕ)
    → Change s t hash d
    → Change t u hash d
    → Change s u hash d
Change-trans s t u hash d a b =
    let same : (q : List ℕ) → key_path s.dir hash ≢ q → key_path t.dir hash ≢ q =
      λ q ne e. ne (ap (λ p. key_path p hash) (sym a.dir) ∙ e) in
    record {
      dir = b.dir ∙ a.dir;
      descs = λ j ne. b.descs j ne ∙ a.descs j ne;
      heads = λ k ne. b.heads k ne ∙ a.heads k ne;
      dirs = λ q ne h. b.dirs q (same q ne) (a.dirs q ne h);
      files = λ q l ne.
          b.files q (l ∙ ap (λ p. length p + 19) (sym a.dir)) (same q ne) ∙ a.files q l ne;
    }

-- A command on an open descriptor.
pub SameKeys-Change :
    (s t : Store) (hash dt : ℕ)
    → SameKeys s t dt
    → ((q : List ℕ) → key_path s.dir hash ≢ q → t.disk q ≡ s.disk q)
    → Change s t hash (some dt)
SameKeys-Change s t hash dt k same = record {
  dir = k.dir;
  descs = λ j ne. k.others j (λ e. ne (ap some (sym e)));
  heads = λ b ne. ap (λ (h : ℕ → Option ℕ). h b) k.heads;
  dirs = λ q ne h. subst CanBeDir (sym (same q ne)) h;
  files = λ q l ne. same q ne;
}

not_level_one : (dir q : List ℕ) (hash : ℕ) → length q ≡ length dir + 19 → level_one dir hash ≢ q
not_level_one dir q hash l e = omega (arith, l, ap length e, length-level_one dir hash)

not_level_two : (dir q : List ℕ) (hash : ℕ) → length q ≡ length dir + 19 → level_two dir hash ≢ q
not_level_two dir q hash l e = omega (arith, l, ap length e, length-level_two dir hash)

pub Opens-Change :
    (s t : Store) (i hash : ℕ) (bs : List ℕ)
    → Opens s t i hash bs
    → Entered s t i hash
    → Change s t hash (some i)
Opens-Change s t i hash bs o e = record {
  dir = o.dir;
  descs = λ j ne. ap view_desc (o.descs j (λ e. ne (ap some (sym e))));
  heads = λ b ne. ap (λ (h : ℕ → Option ℕ). h b) e.heads ∙ ground arith;
  dirs = o.dirs;
  files = λ q l ne. o.disk q (not_level_one s.dir q hash l) (not_level_two s.dir q hash l) ne;
}

pub Waits-Change :
    (s t : Store) (hash : ℕ) (tmp : Option ℕ) → Waits s t hash tmp → Change s t hash none
Waits-Change s t hash tmp w = record {
  dir = w.dir;
  descs = λ j ne. ap (λ (d : ℕ → Desc). view_desc (d j)) w.descs;
  heads = λ b ne. ap (λ (h : ℕ → Option ℕ). h b) w.heads;
  dirs = λ q ne h. w.dirs q h;
  files = λ q l ne. w.disk q (not_level_one s.dir q hash l) (not_level_two s.dir q hash l);
}
