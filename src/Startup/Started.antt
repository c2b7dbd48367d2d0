-- ===== src/Startup/Started.antt =====
-- Whatever the command line is, `main` comes to an end, or to a server with sound settings and an empty
-- table of files.
use solidbits.Prelude.{
  ℕ, ◌≡◌, ◌⊎◌, refl, inl, inr, true, false, Bool-cases, Option, none, some, List, [], ◌∷◌, sym, ◌∙◌,
  ◌||◌, ap, arith,
}
use solidbits.Prelude.Int.{ℤ, pos, negsuc}
use solidbits.Store.{regular, Store, M, next_fault, update_disk, ◌>>=◌}
use solidbits.Stdio.{failed, transferred}
use solidbits.Parser.Number.{decimal_line}
use solidbits.Table.{no_desc, init_file}
use solidbits.Startup.Address.{Config}
use solidbits.Startup.Files.{write_pid, is_directory}
use solidbits.Startup.Options.{Opt, System, defaults}
use solidbits.Startup.Run.{
  Outcome, main, serves, exits, is_zero, run_server, serve, daemonize, start, after_options,
}
use solidbits.Startup.Accepted.{Sound, SoundIfAny, read_options-Sound, defaults-Sound}

-- What a server that runs has been given, and what its table of files is then.
pub record Running (sys : System) (s : Store) (c : Config) (t : Store) : Type 0 where
  pub sound : Sound sys s c
  pub dir : c.dir ≡ some t.dir
  pub descs : t.descs ≡ (λ i. no_desc)
  pub xxtable : t.xxtable ≡ (λ i. none)
  pub idx : t.idx ≡ 0

-- It runs only as the child of `fork` and where libuv could listen; else it exits, with 0 in the parent.
abbrev pub Started : System → Store → Outcome → Store → Type 0
Started sys s (exits n) t = (n ≡ negsuc 0) ⊎ ((n ≡ pos 0) × (is_zero sys.fork ≡ false))
Started sys s (serves c) t =
    Running sys s c t × (is_zero sys.fork ≡ true) × (sys.bind ≡ pos 0) × (sys.listen ≡ pos 0)

is_zero_lem : (z : ℤ) → is_zero z ≡ true → z ≡ pos 0
is_zero_lem (pos n) h = ap pos (ground arith)
is_zero_lem (negsuc n) h = cc

run_server_lem :
    (bind listen : ℤ) → is_zero (run_server bind listen) ≡ true → (bind ≡ pos 0) × (listen ≡ pos 0)
unfolding run_server
run_server_lem bind listen h = elim (Bool-cases (is_zero bind)) [
  | inl b ↦ elim (Bool-cases (is_zero listen)) [
    | inl l ↦ (is_zero_lem bind b, is_zero_lem listen l)
    | inr l ↦ ground arith
  ]
  | inr b ↦ ground arith
]

next_fault_cases :
    (s : Store) (faults : List (Option ℕ))
    → s.faults ≡ faults
    → (f : Option ℕ) × (fs : List (Option ℕ)) × (next_fault s ≡ some (f, record s { faults = fs }))
unfolding next_fault
next_fault_cases s [] h = (none, [], rw h refl)
next_fault_cases s (f ∷ fs) h = (f, fs, rw h)

pub write_pid_lem :
    (pid : Option (List ℕ)) (id : ℕ) (s : Store)
    → (t : Store) × (write_pid pid id s ≡ some (tt, t)) × (t.dir ≡ s.dir)
unfolding write_pid
write_pid_lem none id s = (s, refl, refl)
write_pid_lem (some path) id s =
    let (f, fs, e) = next_fault_cases s s.faults refl in
    let after : Store = record s { faults = fs } in
    let (g, gs, e') = next_fault_cases after after.faults refl in
    elim (Bool-cases (is_directory (s.disk path) || failed f)) [
      | inl bad ↦ (after, rw (e, ◌>>=◌, bad) refl, refl)
      | inr good ↦ (
        record after {
          faults = gs;
          disk = update_disk s.disk path (regular (transferred g (decimal_line id)));
        },
        rw (e, ◌>>=◌, good, e') refl,
        refl,
      )
    ]

module _ (sys : System) (s : Store) where
  abbrev Starts : M Outcome → Store → Type 0
  Starts m t = (o : Outcome) × (u : Store) × (m t ≡ some (o, u)) × Started sys s o u

  serve-Starts :
      (c : Config) (t : Store)
      → Sound sys s c
      → c.dir ≡ some t.dir
      → is_zero sys.fork ≡ true
      → Starts (serve sys c) t
  unfolding serve init_file
  serve-Starts c t sound e child = elim (Bool-cases (is_zero (run_server sys.bind sys.listen))) [
    | inl good ↦ (
      serves c,
      record t { descs = λ i. no_desc; xxtable = λ i. none; idx = 0 },
      rw good refl,
      (
        record { sound = sound; dir = e; descs = refl; xxtable = refl; idx = refl },
        child,
        (run_server_lem sys.bind sys.listen good).0,
        (run_server_lem sys.bind sys.listen good).1,
      ),
    )
    | inr bad ↦ (
      exits (negsuc 0),
      record t { descs = λ i. no_desc; xxtable = λ i. none; idx = 0 },
      rw bad refl,
      inl refl,
    )
  ]

  start-Starts :
      (c : Config) (dir : Option (List ℕ))
      → c.dir ≡ dir
      → Sound sys s c
      → Starts (start sys c dir) s
  unfolding daemonize
  start-Starts c none e sound = (exits (negsuc 0), s, refl, inl refl)
  start-Starts c (some path) e sound =
      let t : Store = record s { dir = path } in
      let (u, written, kept) = write_pid_lem c.pid sys.getpid t in
      elim (Bool-cases (is_zero sys.fork)) [
        | inl child ↦
            let (o, v, served, started) = serve-Starts c u sound (e ∙ ap some (sym kept)) child in
            (o, v, rw (child, written, ◌>>=◌) served, started)
        | inr parent ↦ (exits (pos 0), t, rw parent refl, inr (refl, parent))
      ]

  after_options-Starts : (r : Option Config) → SoundIfAny sys s r → Starts (after_options sys r) s
  after_options-Starts none h = (exits (negsuc 0), s, refl, inl refl)
  after_options-Starts (some c) h = start-Starts c c.dir refl h

-- Whatever the options are, `main` comes to an end or to a running server.
pub main_lem :
    (sys : System) (opts : List Opt) (s : Store)
    → (o : Outcome) × (t : Store) × (main sys opts s ≡ some (o, t)) × Started sys s o t
unfolding main
main_lem sys opts s =
    let (r, e, sound) = read_options-Sound sys s opts (defaults sys) (defaults-Sound sys s) in
    let (o, t, e', started) = after_options-Starts sys s r sound in
    (o, t, rw (e, ◌>>=◌) e', started)
