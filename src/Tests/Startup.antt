-- ===== src/Tests/Startup.antt =====
-- Command lines.
use solidbits.Prepare.{Mode, open_path}
use solidbits.Prelude.{ℕ, ◌≡◌, refl, true, none, some, List, [], ◌∷◌, map, length, replicate, arith}
use solidbits.Prelude.Int.{pos}
use solidbits.Store.{directory, Store, update_disk}
use solidbits.Paths.{key_path}
use solidbits.Parser.Answer.{codes}
use solidbits.Startup.Address.{Config, atoi}
use solidbits.Startup.Files.{dirname}
use solidbits.Startup.Options.{data_directory, debug_mode, worker_number, System, defaults}
use solidbits.Startup.Run.{Outcome, main, serves}
use solidbits.Startup.Started.{Started, main_lem}
use solidbits.Startup.Complete.{
  Request, use_directory, use_workers, listen_at, all_granted, main_serves, print,
}
use solidbits.Startup.Longest.{longest_directory_fills}
use solidbits.Tests.Demo.{demo_store}

abbrev pub demo_system : System
demo_system = record {
  inet_addr = length;
  access = λ path. true;
  nprocs = 4;
  getpid = 99;
  fork = pos 0;
  bind = pos 0;
  listen = pos 0;
}

-- `/data`, and a directory with a name of 237 bytes.
abbrev pub ready_store : Store
ready_store = record demo_store {
  disk =
      update_disk (update_disk demo_store.disk (codes "/data") (directory true))
        (replicate 237 b'/') (directory true);
}

dirname_of_file : dirname (codes "/run/x.pid") ≡ codes "/run"
unfolding dirname
dirname_of_file = refl

dirname_of_name : dirname (codes "x.pid") ≡ codes "."
unfolding dirname
dirname_of_name = refl

atoi_wraps : atoi (codes "4294967297x") ≡ pos 1
unfolding atoi
atoi_wraps = refl

abbrev pub demo_requests : List Request
demo_requests =
    use_directory (codes "/data") ∷ listen_at (codes "10.0.0.1") 7000 ∷ use_workers 4 ∷ []

main_serves_example :
    (t : Store) × (main demo_system (map print demo_requests) ready_store
      ≡ some (serves (all_granted demo_system demo_requests (defaults demo_system)), t))
    × (t.dir ≡ codes "/data")
main_serves_example =
    main_serves demo_system ready_store demo_requests (codes "/data")
      ((omega arith, refl), (omega arith, (omega arith, tt))) refl refl refl refl

main_lem_example :
    (o : Outcome) × (t : Store) × (main demo_system
        (data_directory (codes "/data") ∷ worker_number (codes "8") ∷ debug_mode ∷ [])
        ready_store
      ≡ some (o, t))
    × Started demo_system ready_store o t
main_lem_example =
    main_lem demo_system
      (data_directory (codes "/data") ∷ worker_number (codes "8") ∷ debug_mode ∷ []) ready_store

longest_directory_fills_example :
    (c : Config) × (t : Store) × (main demo_system
        (data_directory (replicate 237 b'/') ∷ [])
        ready_store
      ≡ some (serves c, t))
    × ((hash i : ℕ) (mode : Mode) (u : Store)
        → (length (key_path t.dir hash) ≡ 256) × (open_path i (key_path t.dir hash) mode u ≡ none))
longest_directory_fills_example =
    longest_directory_fills demo_system ready_store (replicate 237 b'/') refl refl refl refl refl
