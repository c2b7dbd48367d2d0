-- ===== src/Startup/Complete.antt =====
-- A command line that keeps to the rules starts the server, with the settings that it asks for.
use solidbits.Prelude.{
  ℕ, ◌≡◌, ◌≤◌, ◌⊎◌, refl, ap, inl, inr, true, false, Option, none, some, List, [], ◌∷◌, ◌++◌,
  length, ltb, map, arith,
}
use solidbits.Prelude.Int.{pos}
use solidbits.Store.{directory, Store, ◌>>=◌}
use solidbits.Paths.{check_dir}
use solidbits.Table.{no_desc, init_file}
use solidbits.Startup.Address.{Config, set_addr_port}
use solidbits.Startup.Files.{
  check_file, dirname, is_regular, is_negative, writable, creatable, FileCheck,
}
use solidbits.Startup.Options.{
  Opt, listen_on, data_directory, debug_mode, pid_file, worker_number, System, defaults, is_worker,
  apply_option, read_options,
}
use solidbits.Startup.Run.{serves, run_server, serve, daemonize, start, main}
use solidbits.Startup.Listen.{digits, NoColon, atoi-digits, set_port-digits, set_addr_port_lem}
use solidbits.Startup.Started.{write_pid_lem}

-- What one option asks for.
pub data Request : Type 0 where
  listen_at : List ℕ → ℕ → Request
  port_only : ℕ → Request
  use_directory : List ℕ → Request
  debugging : Request
  pid_at : List ℕ → Request
  use_workers : ℕ → Request

-- The option and its argument.
abbrev pub print : Request → Opt
print (listen_at address n) = listen_on (address ++ (b':' ∷ digits n))
print (port_only n) = listen_on (b':' ∷ digits n)
print (use_directory path) = data_directory path
print debugging = debug_mode
print (pid_at path) = pid_file path
print (use_workers n) = worker_number (digits n)

-- The rules that it keeps to.
abbrev pub IsValid : System → Store → Request → Type 0
IsValid sys s (listen_at address n) = NoColon address × (7 ≤ length address) × (1 ≤ n) × (n ≤ 65534)
IsValid sys s (port_only n) = (1 ≤ n) × (n ≤ 65534)
IsValid sys s (use_directory path) = (length path ≤ 237) × (s.disk path ≡ directory true)
IsValid sys s debugging = Unit
IsValid sys s (pid_at path) =
    ((is_regular (s.disk path) ≡ true) × (sys.access path ≡ true))
    ⊎ ((is_regular (s.disk path) ≡ false) × (s.disk (dirname path) ≡ directory true))
IsValid sys s (use_workers n) = (1 ≤ n) × (n ≤ 256)

abbrev pub AreValid : System → Store → List Request → Type 0
AreValid sys s [] = Unit
AreValid sys s (r ∷ rs) = IsValid sys s r × AreValid sys s rs

-- What it sets.
abbrev pub granted : System → Config → Request → Config
granted sys c (listen_at address n) = record c { address = sys.inet_addr address; port = n }
granted sys c (port_only n) = record c { port = n }
granted sys c (use_directory path) = record c { dir = some path }
granted sys c debugging = record c { debug = true }
granted sys c (pid_at path) = record c { pid = some path }
granted sys c (use_workers n) = record c { worker = pos n }

abbrev pub all_granted : System → List Request → Config → Config
all_granted sys [] c = c
all_granted sys (r ∷ rs) c = all_granted sys rs (granted sys c r)

module _ (sys : System) (s : Store) where
  check_file_lem :
      (path : List ℕ)
      → IsValid sys s (pid_at path)
      → (r : FileCheck) × (check_file sys.access path s ≡ some (r, s)) × (is_negative r ≡ false)
  unfolding check_file check_dir
  check_file_lem path (inl (regular, writes)) = (writable, rw (regular, writes) refl, refl)
  check_file_lem path (inr (other, e)) = (creatable, rw (other, e) refl, refl)

  apply_option_lem :
      (c : Config) (r : Request)
      → IsValid sys s r
      → apply_option sys c (print r) s ≡ some (some (granted sys c r), s)
  unfolding apply_option set_addr_port check_dir
  apply_option_lem c (listen_at address n) (clean, h, a, b) =
      ap (λ (x : Option Config). some (x, s))
        (set_addr_port_lem sys.inet_addr c address n clean h a b)
  apply_option_lem c (port_only n) (a, b) =
      ap (λ (x : Option Config). some (x, s)) (set_port-digits c n a b)
  apply_option_lem c (use_directory path) (l, e) =
      let short : ltb 237 (length path) ≡ false = ground arith in rw (short, e) refl
  apply_option_lem c debugging h = refl
  apply_option_lem c (pid_at path) h =
      let (r, e, good) = check_file_lem path h in rw (e, ◌>>=◌, good) refl
  apply_option_lem c (use_workers n) (a, b) =
      let good : is_worker (pos n) ≡ true = ground arith in
      rw (atoi-digits n (omega arith), good) refl

  read_options_lem :
      (rs : List Request) (c : Config)
      → AreValid sys s rs
      → read_options sys (map print rs) c s ≡ some (some (all_granted sys rs c), s)
  unfolding read_options
  read_options_lem [] c h = refl
  read_options_lem (r ∷ rs) c (h, hs) =
      rw (apply_option_lem c r h, ◌>>=◌) (read_options_lem rs (granted sys c r) hs)

  start_lem :
      (c : Config) (path : List ℕ)
      → sys.fork ≡ pos 0
      → sys.bind ≡ pos 0
      → sys.listen ≡ pos 0
      → (t : Store) × (start sys c (some path) s ≡ some (serves c, t)) × (t.dir ≡ path)
  unfolding daemonize serve run_server init_file
  start_lem c path child bound listens =
      let (u, written, kept) = write_pid_lem c.pid sys.getpid (record s { dir = path }) in
      (
        record u { descs = λ i. no_desc; xxtable = λ i. none; idx = 0 },
        rw (child, written, ◌>>=◌, bound, listens) refl,
        kept,
      )

-- Options that all keep to the rules, a directory among them, in the child of `fork` and where libuv
-- binds and listens: `main` starts the server with the settings that the options ask for, of two
-- that ask for the same the later one, the defaults where none asks, and in the directory that was
-- set.
pub main_serves :
    (sys : System) (s : Store) (rs : List Request) (path : List ℕ)
    → AreValid sys s rs
    → (all_granted sys rs (defaults sys)).dir ≡ some path
    → sys.fork ≡ pos 0
    → sys.bind ≡ pos 0
    → sys.listen ≡ pos 0
    → (t : Store) × (main sys (map print rs) s
        ≡ some (serves (all_granted sys rs (defaults sys)), t))
      × (t.dir ≡ path)
unfolding main
main_serves sys s rs path h dir child bound listens =
    let c : Config = all_granted sys rs (defaults sys) in
    let (t, e, kept) = start_lem sys s c path child bound listens in
    (t, rw (read_options_lem sys s rs (defaults sys) h, ◌>>=◌, dir) e, kept)
