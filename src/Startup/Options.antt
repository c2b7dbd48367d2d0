-- ===== src/Startup/Options.antt =====
-- src/main.c, the loop over the options. Its input is what `getopt` returns, one option after another.
use solidbits.Prelude.{
  ℕ, ◌*◌, Bool, true, false, ◌&&◌, Option, none, some, List, [], ◌∷◌, length, leb, ltb,
  if◌then◌else◌,
}
use solidbits.Prelude.Int.{ℤ, pos, negsuc}
use solidbits.Store.{M, pure, ◌>>=◌}
use solidbits.Paths.{DirCheck, usable, denied, missing, check_dir}
use solidbits.Startup.Address.{Config, atoi, set_addr_port}
use solidbits.Startup.Files.{FileCheck, check_file, is_negative}

-- -l, -d, -D, -p and -w, and the `'?'` for any other.
pub data Opt : Type 0 where
  listen_on : List ℕ → Opt
  data_directory : List ℕ → Opt
  debug_mode : Opt
  pid_file : List ℕ → Opt
  worker_number : List ℕ → Opt
  unrecognized : Opt

abbrev pub worker_minimum : ℕ
worker_minimum = 1

abbrev pub worker_maximum : ℕ
worker_maximum = 256

-- What the operating system and libuv answer: `inet_addr`, `access` of a regular file, `get_nprocs`,
-- `getpid`, and the results of `fork`, `uv_tcp_bind` and `uv_listen`.
pub record System : Type 0 where
  pub inet_addr : List ℕ → ℕ
  pub access : List ℕ → Bool
  pub nprocs : ℕ
  pub getpid : ℕ
  pub fork : ℤ
  pub bind : ℤ
  pub listen : ℤ

-- The settings before the loop.
unfoldable pub defaults : System → Config
defaults sys = record {
  address = sys.inet_addr (b'1' ∷ b'2' ∷ b'7' ∷ b'.' ∷ b'0' ∷ b'.' ∷ b'0' ∷ b'.' ∷ b'1' ∷ []);
  port = 6379;
  worker = pos (sys.nprocs * 2);
  debug = false;
  pid = none;
  dir = none;
}

abbrev pub is_worker : ℤ → Bool
is_worker (pos n) = leb worker_minimum n && leb n worker_maximum
is_worker (negsuc n) = false

abbrev pub set_dir : Config → List ℕ → DirCheck → Option Config
set_dir c path usable = some (record c { dir = some path })
set_dir c path denied = none
set_dir c path missing = none

abbrev pub set_pid : Config → List ℕ → FileCheck → Option Config
set_pid c path r = if is_negative r then none else some (record c { pid = some path })

-- One pass of the loop; `none` is the return of -1.
unfoldable pub apply_option : System → Config → Opt → M (Option Config)
apply_option sys c (listen_on str) = pure (set_addr_port sys.inet_addr c str)
apply_option sys c debug_mode = pure (some (record c { debug = true }))
apply_option sys c (pid_file path) = do r ← check_file sys.access path; pure (set_pid c path r)
apply_option sys c (worker_number str) =
    pure (if is_worker (atoi str) then some (record c { worker = atoi str }) else none)
apply_option sys c (data_directory path) =
    if ltb 237 (length path) then pure none else (check_dir path >>= λ r. pure (set_dir c path r))
apply_option sys c unrecognized = pure (some c)

abbrev pub carry_on : Option Config → (Config → M (Option Config)) → M (Option Config)
carry_on none rest = pure none
carry_on (some c) rest = rest c

unfoldable pub read_options : System → List Opt → Config → M (Option Config)
read_options sys [] c = pure (some c)
read_options sys (o ∷ os) c = do r ← apply_option sys c o; carry_on r (λ d. read_options sys os d)
