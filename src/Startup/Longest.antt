-- ===== src/Startup/Longest.antt =====
-- The longest directory that src/main.c accepts, and the 256 bytes of `filename` in src/file.c.
use solidbits.Prelude.{
  ℕ, ◌≡◌, refl, true, false, ltb, ltb-false, ap, none, some, List, [], ◌∷◌, length, arith,
}
use solidbits.Prelude.Int.{pos}
use solidbits.Store.{directory, Store}
use solidbits.Paths.{key_path, filename_size}
use solidbits.Prepare.{Mode, open_path}
use solidbits.Paths.Lengths.{length-key_path}
use solidbits.Startup.Address.{Config}
use solidbits.Startup.Options.{System, data_directory, defaults}
use solidbits.Startup.Run.{main, serves}
use solidbits.Startup.Complete.{use_directory, main_serves}

no_null_byte :
    (i : ℕ) (path : List ℕ) (mode : Mode) (u : Store)
    → length path ≡ 256
    → open_path i path mode u ≡ none
unfolding open_path
no_null_byte i path mode u fills =
    let full : ltb (length path) filename_size ≡ false = ltb-false _ _ (omega (arith, fills)) in
    rw full refl

-- A directory of 237 bytes that can be read and written is accepted, and the path of every key in it
-- has 256 bytes: as many as the buffer `filename` of open_file, so that no null byte ends it there, and
-- what open_file does with it is undefined.
pub longest_directory_fills :
    (sys : System) (s : Store) (path : List ℕ)
    → length path ≡ 237
    → s.disk path ≡ directory true
    → sys.fork ≡ pos 0
    → sys.bind ≡ pos 0
    → sys.listen ≡ pos 0
    → (c : Config) × (t : Store) × (main sys (data_directory path ∷ []) s ≡ some (serves c, t))
      × ((hash i : ℕ) (mode : Mode) (u : Store)
          → (length (key_path t.dir hash) ≡ 256)
            × (open_path i (key_path t.dir hash) mode u ≡ none))
longest_directory_fills sys s path l e child bound listens =
    let (t, runs, kept) =
      main_serves sys s (use_directory path ∷ []) path ((omega arith, e), tt) refl child bound
        listens in
    (
      record (defaults sys) { dir = some path },
      t,
      runs,
      λ hash i mode u.
          let fills : length (key_path t.dir hash) ≡ 256 =
            omega (arith, length-key_path t.dir hash, ap length kept) in
          (fills, no_null_byte i (key_path t.dir hash) mode u fills),
    )
