-- ===== src/Startup/Run.antt =====
-- src/main.c, from the options to the running server, and its end at SIGTERM; src/helper.c,
-- `daemonize`; src/net.c, `run_server`.
use solidbits.Prelude.{ℕ, Bool, false, Option, none, some, List, ◌==◌, if◌then◌else◌}
use solidbits.Prelude.Int.{ℤ, pos, negsuc}
use solidbits.Store.{M, pure, ◌>>=◌, ◌>>◌}
use solidbits.Table.{init_file}
use solidbits.Prepare.{close_files}
use solidbits.Startup.Address.{Config}
use solidbits.Startup.Files.{write_pid}
use solidbits.Startup.Options.{Opt, System, defaults, read_options}

-- The process ends with an exit code, or its event loop runs.
pub data Outcome : Type 0 where
  exits : ℤ → Outcome
  serves : Config → Outcome

abbrev pub is_zero : ℤ → Bool
is_zero (pos n) = n == 0
is_zero (negsuc n) = false

unfoldable pub run_server : ℤ → ℤ → ℤ
run_server bind listen = if is_zero bind then if is_zero listen then pos 0 else listen else bind

abbrev put_dir : List ℕ → M (Unit {0})
put_dir path s = some (tt, record s { dir = path })

-- What follows `daemonize` in the process that goes on.
unfoldable pub serve : System → Config → M Outcome
serve sys c = do
  init_file
  pure (if is_zero (run_server sys.bind sys.listen) then serves c else exits (negsuc 0))

-- `daemonize`: where `fork` does not return 0, in the parent and on failure, the process exits.
unfoldable pub daemonize : System → Config → M Outcome → M Outcome
daemonize sys c rest =
    if is_zero sys.fork then (write_pid c.pid sys.getpid >> rest) else pure (exits (pos 0))

abbrev pub start : System → Config → Option (List ℕ) → M Outcome
start sys c none = pure (exits (negsuc 0))
start sys c (some path) = do put_dir path; daemonize sys c (serve sys c)

abbrev pub after_options : System → Option Config → M Outcome
after_options sys none = pure (exits (negsuc 0))
after_options sys (some c) = start sys c c.dir

unfoldable pub main : System → List Opt → M Outcome
main sys opts = do r ← read_options sys opts (defaults sys); after_options sys r

-- The handler of SIGTERM; `uv_stop` then ends the loop.
unfoldable pub on_sigterm : M (Unit {0})
on_sigterm = close_files
