-- ===== src/Startup/Accepted.antt =====
-- What the server runs with, whatever the command line was.
use solidbits.Prelude.{
  ℕ, ◌*◌, ◌≡◌, ◌≤◌, ◌⊎◌, refl, inl, inr, true, false, Bool-cases, Option, none, some, List, [], ◌∷◌,
  ◌++◌, length, take, drop, if◌then◌else◌, ltb, ◌==◌, Bool, arith,
}
use solidbits.Prelude.Int.{ℤ, pos, negsuc}
use solidbits.Store.{Node, absent, regular, directory, Store, M, ◌>>=◌}
use solidbits.Paths.{check_dir, node_check, usable}
use solidbits.Startup.Address.{
  Config, atoi, cut_colon, set_addr_port, set_port, set_both, set_address, is_port, magnitude,
}
use solidbits.Startup.Files.{
  check_file, is_regular, dirname, of_directory, FileCheck, writable, creatable, refused,
  no_directory,
}
use solidbits.Startup.Options.{
  Opt, listen_on, data_directory, debug_mode, pid_file, worker_number, unrecognized, System,
  defaults, is_worker, set_dir, set_pid, apply_option, carry_on, read_options,
}

-- The number of workers is the default or in range.
abbrev pub WorkerFits : System → ℤ → Type 0
WorkerFits sys w = (w ≡ pos (sys.nprocs * 2)) ⊎ ((n : ℕ) × (w ≡ pos n) × (1 ≤ n) × (n ≤ 256))

-- A directory, if one is set, is short enough, and can be read and written.
abbrev pub DirFits : (List ℕ → Node) → Option (List ℕ) → Type 0
DirFits disk none = Unit
DirFits disk (some path) = (length path ≤ 237) × (disk path ≡ directory true)

pub record Sound (sys : System) (s : Store) (c : Config) : Type 0 where
  pub port_from : 1 ≤ c.port
  pub port_to : c.port ≤ 65534
  pub worker : WorkerFits sys c.worker
  pub dir : DirFits s.disk c.dir

abbrev pub SoundIfAny : System → Store → Option Config → Type 0
SoundIfAny sys s none = Unit
SoundIfAny sys s (some c) = Sound sys s c

node_check_usable : (n : Node) → node_check n ≡ usable → n ≡ directory true
node_check_usable absent h = cc
node_check_usable (regular bs) h = cc
node_check_usable (directory true) h = refl
node_check_usable (directory false) h = cc

is_port_lem : (z : ℤ) → is_port z ≡ true → (1 ≤ magnitude z) × (magnitude z ≤ 65534)
is_port_lem (pos n) h = ground arith
is_port_lem (negsuc n) h = cc

is_worker_lem : (z : ℤ) → is_worker z ≡ true → (n : ℕ) × (z ≡ pos n) × (1 ≤ n) × (n ≤ 256)
is_worker_lem (pos n) h = (n, refl, ground arith, ground arith)
is_worker_lem (negsuc n) h = cc

module _ (sys : System) (s : Store) where
  set_port-Sound : (c : Config) (str : List ℕ) → Sound sys s c → SoundIfAny sys s (set_port c str)
  set_port-Sound c str h = elim (Bool-cases (is_port (atoi str))) [
    | inl good ↦
        let (a, b) = is_port_lem (atoi str) good in
        rw good (record { port_from = a; port_to = b; worker = h.worker; dir = h.dir })
    | inr bad ↦ rw bad tt
  ]

  set_address-Sound :
      (r : Option Config) (orig : List ℕ)
      → SoundIfAny sys s r
      → SoundIfAny sys s (set_address sys.inet_addr orig r)
  set_address-Sound none orig h = tt
  set_address-Sound (some c) orig h = record {
    port_from = h.port_from;
    port_to = h.port_to;
    worker = h.worker;
    dir = h.dir;
  }

  set_both-Sound :
      (c : Config) (front : List ℕ) (cut : List ℕ × Option (List ℕ))
      → Sound sys s c
      → SoundIfAny sys s (set_both sys.inet_addr c front cut)
  set_both-Sound c front (before, none) h = set_address-Sound (some c) (front ++ before) h
  set_both-Sound c front (before, some port) h =
      set_address-Sound (set_port c port) (front ++ before) (set_port-Sound c port h)

  set_addr_port-Sound :
      (c : Config) (str : List ℕ)
      → Sound sys s c
      → SoundIfAny sys s (set_addr_port sys.inet_addr c str)
  unfolding set_addr_port
  set_addr_port-Sound c [] h = tt
  set_addr_port-Sound c (x ∷ str) h = elim (Bool-cases (x == b':')) [
    | inl colon ↦ rw colon (set_port-Sound c str h)
    | inr other ↦ elim (Bool-cases (ltb (length (x ∷ str)) 9)) [
      | inl short ↦ rw (other, short) tt
      | inr long ↦
          rw (other, long) (set_both-Sound c (take 7 (x ∷ str)) (cut_colon (drop 7 (x ∷ str))) h)
    ]
  ]

  -- One option is handled without touching the store.
  abbrev Handled : M (Option Config) → Type 0
  Handled m = (r : Option Config) × (m s ≡ some (r, s)) × SoundIfAny sys s r

  set_dir-Sound :
      (c : Config) (path : List ℕ) (n : Node)
      → s.disk path ≡ n
      → length path ≤ 237
      → Sound sys s c
      → SoundIfAny sys s (set_dir c path (node_check n))
  set_dir-Sound c path absent e l h = tt
  set_dir-Sound c path (regular bs) e l h = tt
  set_dir-Sound c path (directory false) e l h = tt
  set_dir-Sound c path (directory true) e l h = record {
    port_from = h.port_from;
    port_to = h.port_to;
    worker = h.worker;
    dir = (l, e);
  }

  set_pid-Sound :
      (c : Config) (path : List ℕ) (r : FileCheck)
      → Sound sys s c
      → SoundIfAny sys s (set_pid c path r)
  set_pid-Sound c path writable h = record {
    port_from = h.port_from;
    port_to = h.port_to;
    worker = h.worker;
    dir = h.dir;
  }
  set_pid-Sound c path creatable h = record {
    port_from = h.port_from;
    port_to = h.port_to;
    worker = h.worker;
    dir = h.dir;
  }
  set_pid-Sound c path refused h = tt
  set_pid-Sound c path no_directory h = tt

  check_file_lem :
      (access : List ℕ → Bool) (path : List ℕ)
      → (r : FileCheck) × (check_file access path s ≡ some (r, s))
  unfolding check_file
  check_file_lem access path = elim (Bool-cases (is_regular (s.disk path))) [
    | inl reg ↦ (if access path then writable else refused, rw reg refl)
    | inr other ↦ (of_directory (node_check (s.disk (dirname path))), rw other refl)
  ]

  apply_option-Sound : (c : Config) (o : Opt) → Sound sys s c → Handled (apply_option sys c o)
  unfolding apply_option check_dir
  apply_option-Sound c (listen_on str) h = (_, refl, set_addr_port-Sound c str h)
  apply_option-Sound c debug_mode h = (
    _,
    refl,
    record { port_from = h.port_from; port_to = h.port_to; worker = h.worker; dir = h.dir },
  )
  apply_option-Sound c (pid_file path) h =
      let (r, e) = check_file_lem sys.access path in
      (set_pid c path r, rw (e, ◌>>=◌) refl, set_pid-Sound c path r h)
  apply_option-Sound c (worker_number str) h = elim (Bool-cases (is_worker (atoi str))) [
    | inl good ↦ (
      some (record c { worker = atoi str }),
      rw good refl,
      record {
        port_from = h.port_from;
        port_to = h.port_to;
        worker = inr (is_worker_lem (atoi str) good);
        dir = h.dir;
      },
    )
    | inr bad ↦ (none, rw bad, tt)
  ]
  apply_option-Sound c (data_directory path) h = elim (Bool-cases (ltb 237 (length path))) [
    | inl long ↦ (none, rw long, tt)
    | inr short ↦ (
      set_dir c path (node_check (s.disk path)),
      rw short refl,
      set_dir-Sound c path (s.disk path) refl (ground arith) h,
    )
  ]
  apply_option-Sound c unrecognized h = (some c, refl, h)

  handle_rest :
      (os : List Opt)
      → ((d : Config) → Sound sys s d → Handled (read_options sys os d))
      → (r : Option Config) → SoundIfAny sys s r
      → Handled (carry_on r (λ d. read_options sys os d))
  handle_rest os rest none h = (none, refl, tt)
  handle_rest os rest (some d) h = rest d h

  pub read_options-Sound :
      (os : List Opt) (c : Config) → Sound sys s c → Handled (read_options sys os c)
  unfolding read_options
  read_options-Sound [] c h = (some c, refl, h)
  read_options-Sound (o ∷ os) c h =
      let (r, e, sound) = apply_option-Sound c o h in
      let (q, e', sound') = handle_rest os (read_options-Sound os) r sound in
      (q, rw (e, ◌>>=◌) e', sound')

  pub defaults-Sound : Sound sys s (defaults sys)
  unfolding defaults
  defaults-Sound = record {
    port_from = omega arith;
    port_to = omega arith;
    worker = inl refl;
    dir = tt;
  }
