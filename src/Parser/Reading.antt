-- ===== src/Parser/Reading.antt =====
-- A command that only reads: GETBIT and BITCOUNT open their key with mode 1, answer 0 if it has no file,
-- and else do the same with its descriptor every time.
use solidbits.Prelude.{
  suc, ◌-◌, ◌&&◌, sym, take-nil, drop-nil, ℕ, ◌≡◌, refl, ap, ◌∙◌, some, none, List, [], ◌∷◌, ◌==◌,
  if◌then◌else◌, Bool-cases, inl, inr, length, arith,
}
use solidbits.Prelude.Int.{ℤ, pos, ltb_ℤ}
use solidbits.Store.{Store, M, pure, ◌>>=◌, ◌>>◌, get_desc}
use solidbits.Store.Keys.{SameKeys, SameKeys-trans}
use solidbits.Stdio.Holds.{Holds, Holds-view, SameKeys-view}
use solidbits.Bitops.{GetbitCmd, BitcountCmd, getbit_command, bitcount_command}
use solidbits.Popcount.Spec.{count_ones}
use solidbits.Bitops.Bit.{bit_at, bit_at_past}
use solidbits.Bitops.SetGet.{getbit_command_lem}
use solidbits.Bitops.Count.{ones_between, position, bitcount_command_lem}
use solidbits.Prepare.{existing, found, ready, failure, not_found, prepare_file}
use solidbits.Prepare.Lookup.{
  looked_up, Released, prepare_file_hit, Holds-Touched, Holds-Released, release_desc_lem,
}
use solidbits.Parser.Answer.{Answer, nothing_there, filesystem_failed}
use solidbits.Parser.Number.{decimal_line, printed}
use solidbits.Parser.Cases.{finish, release_all_descs}
use solidbits.Parser.Execute.{run_getbit}
use solidbits.Parser.Cached.{number, finish_lem}

unfoldable pub reading : (List ℕ → ℕ) → List ℕ → (ℕ → M Answer) → M Answer
unfolding prepare_file
reading xxh64 key body = do
  r ← prepare_file xxh64 key existing
  elim r [ not_found ↦ pure nothing_there | failure ↦ pure filesystem_failed | ready dt ↦ body dt ]

-- On an open descriptor it answers a number that the bytes of the file give, 0 if there are none, and
-- leaves files and entries as they were.
pub record Reads (body : ℕ → M Answer) (value : List ℕ → ℕ) : Type 0 where
  pub runs :
      (s : Store) (dt : ℕ) (path bs : List ℕ)
      → Holds s dt path bs
      → (t : Store) × (body dt s ≡ some (number (value bs), t))
        × Holds t dt path bs
        × (t.disk ≡ s.disk)
        × SameKeys s t dt
  pub of_nothing : value [] ≡ 0

pub nothing-number : nothing_there ≡ number 0
unfolding decimal_line printed
nothing-number = refl

-- A key whose descriptor is in the table.
pub reading_hit :
    (xxh64 : List ℕ → ℕ) (key : List ℕ) (body : ℕ → M Answer) (value : List ℕ → ℕ) (s : Store)
    (dt : ℕ) (path bs : List ℕ)
    → Reads body value
    → looked_up s (xxh64 key) ≡ found dt
    → Holds s dt path bs
    → (t : Store) × (reading xxh64 key body s ≡ some (number (value bs), t))
      × Holds t dt path bs
      × (t.disk ≡ s.disk)
      × SameKeys s t dt
unfolding reading
reading_hit xxh64 key body value s dt path bs r h o =
    let (s', e, w) = prepare_file_hit xxh64 key existing s dt h in
    let (t, run, o', d, k) = r.runs s' dt path bs (Holds-Touched s s' dt path bs w o) in
    (t, rw (e, ◌>>=◌) run, o', d ∙ w.disk, SameKeys-trans s s' t dt w.keys k)

-- GETBIT.
abbrev pub get_body : GetbitCmd → ℕ → M Answer
get_body cmd dt = getbit_command cmd dt >>= λ result. finish (some dt ∷ []) result

pub run_getbit-reading :
    (xxh64 : List ℕ → ℕ) (cmd : GetbitCmd)
    → run_getbit xxh64 cmd ≡ reading xxh64 cmd.key (get_body cmd)
unfolding run_getbit reading
run_getbit-reading xxh64 cmd = refl

pub get-Reads : (cmd : GetbitCmd) → Reads (get_body cmd) (λ bs. bit_at bs cmd.offset)
get-Reads cmd = record {
  runs = λ s dt path bs o.
      let (t, run, v) = getbit_command_lem s dt path bs cmd o in
      let (u, done, w) = finish_lem t dt (bit_at bs cmd.offset) in
      (
        u,
        rw (run, ◌>>=◌) done,
        Holds-Released t u dt path bs w (Holds-view s t dt path bs v o),
        w.disk ∙ ap (λ (x : Store). x.disk) v,
        SameKeys-trans s t u dt (SameKeys-view s t dt v) w.keys,
      );
  of_nothing = bit_at_past [] cmd.offset (omega arith);
}

-- BITCOUNT, which asks for no count of an empty file.
abbrev pub count_body : BitcountCmd → ℕ → M Answer
count_body cmd dt = get_desc dt >>= λ d.
    if d.length == 0
    then release_all_descs (some dt ∷ []) >> pure nothing_there
    else (bitcount_command cmd dt >>= λ result. finish (some dt ∷ []) result)

nil_of-length : (bs : List ℕ) → length bs ≡ 0 → bs ≡ []
nil_of-length [] h = refl
nil_of-length (b ∷ bs) h = absurd (omega (arith, h))

release_nothing :
    (s : Store) (dt : ℕ)
    → (t : Store) × ((release_all_descs (some dt ∷ []) >> pure nothing_there) s
        ≡ some (number 0, t))
      × Released s t dt
unfolding release_all_descs
release_nothing s dt =
    let (t, e, w) = release_desc_lem s dt in
    let run : (release_all_descs (some dt ∷ []) >> pure nothing_there) s ≡ some (nothing_there, t) =
      ap (λ r. elim r [ none ↦ none | some (u, t) ↦ some (nothing_there, t) ]) e in
    (t, run ∙ ap (λ a. some (a, t)) nothing-number, w)

ones_of_nothing : (a b : ℤ) → ones_between [] a b ≡ 0
unfolding ones_between count_ones
ones_of_nothing a b = elim (Bool-cases (ltb_ℤ a (pos 0) && ltb_ℤ b (pos 0) && ltb_ℤ b a)) [
  | inl e ↦ rw e refl
  | inr e ↦ rw (e, drop-nil (position a 0), take-nil (suc (position b 0) - position a 0)) refl
]

pub count-Reads :
    (cmd : BitcountCmd) → Reads (count_body cmd) (λ bs. ones_between bs cmd.start cmd.end)
count-Reads cmd = record {
  runs = λ s dt path bs o. elim (Bool-cases ((s.descs dt).length == 0)) [
    | inl empty ↦
        let nil : bs ≡ [] = nil_of-length bs (ground (arith, o.synced)) in
        let (t, run, w) = release_nothing s dt in
        (
          t,
          rw empty run
              ∙ ap (λ (n : ℕ). some (number n, t))
                  (sym (
                    ap (λ bs. ones_between bs cmd.start cmd.end) nil
                    ∙ ones_of_nothing cmd.start cmd.end)),
          Holds-Released s t dt path bs w o,
          w.disk,
          w.keys,
        )
    | inr some_bytes ↦
        let (t, run, v) = bitcount_command_lem s dt path bs cmd o in
        let (u, done, w) = finish_lem t dt (ones_between bs cmd.start cmd.end) in
        (
          u,
          rw (some_bytes, run, ◌>>=◌) done,
          Holds-Released t u dt path bs w (Holds-view s t dt path bs v o),
          w.disk ∙ ap (λ (x : Store). x.disk) v,
          SameKeys-trans s t u dt (SameKeys-view s t dt v) w.keys,
        )
  ];
  of_nothing = ones_of_nothing cmd.start cmd.end;
}

pub run_getbit_lem :
    (xxh64 : List ℕ → ℕ) (s : Store) (dt : ℕ) (path bs : List ℕ) (cmd : GetbitCmd)
    → looked_up s (xxh64 cmd.key) ≡ found dt
    → Holds s dt path bs
    → (t : Store) × (run_getbit xxh64 cmd s ≡ some (number (bit_at bs cmd.offset), t))
      × Holds t dt path bs
      × (t.disk ≡ s.disk)
      × SameKeys s t dt
run_getbit_lem xxh64 s dt path bs cmd h o =
    let (t, run, o', d, k) =
      reading_hit xxh64 cmd.key (get_body cmd) (λ bs. bit_at bs cmd.offset) s dt path bs
        (get-Reads cmd) h o in
    (t, ap (λ m. m s) (run_getbit-reading xxh64 cmd) ∙ run, o', d, k)
