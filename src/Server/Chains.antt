-- ===== src/Server/Chains.antt =====
-- The hash chains of a server that runs.
use solidbits.Prelude.{ℕ, ◌%◌, ◌≡◌, refl, sym, subst, ◌∙◌, Option, none, some, List, [], ◌∷◌, arith}
use solidbits.Store.{Store, Desc}
use solidbits.Store.Keeps.{Keeps, Tidy, TidyAfter, Alone, Keeps-bind, Keeps-pure}
use solidbits.Table.{desc_hash_table_size}
use solidbits.Prepare.Lookup.{looked_up}
use solidbits.Prepare.Keeps.{TakesNoStep, walk-TakesNoStep}
use solidbits.Parser.Keeps.{parse_and_execute-Keeps}
use solidbits.Startup.Address.{Config}
use solidbits.Startup.Options.{Opt, System}
use solidbits.Startup.Run.{Outcome, main, serves}
use solidbits.Startup.Started.{Running, Started, main_lem}
use solidbits.Server.{serve_lines}

serve_lines-Keeps : (xxh64 : List ℕ → ℕ) (lines : List (List ℕ)) → Keeps (serve_lines xxh64 lines)
unfolding serve_lines
serve_lines-Keeps xxh64 [] = Keeps-pure []
serve_lines-Keeps xxh64 (line ∷ lines) =
    Keeps-bind _ _ (parse_and_execute-Keeps xxh64 line)
      λ answer. Keeps-bind _ _ (serve_lines-Keeps xxh64 lines) λ answers. Keeps-pure _

abbrev StartedAs : System → Store → Option (Outcome × Store) → Type 0
StartedAs sys s none = Unit
StartedAs sys s (some (o, t)) = Started sys s o t

-- What is known of a server that runs.
pub main-Running :
    (sys : System) (opts : List Opt) (s : Store) (c : Config) (t : Store)
    → main sys opts s ≡ some (serves c, t)
    → Running sys s c t
main-Running sys opts s c t h =
    let (o, u, e, started) = main_lem sys opts s in
    let r : StartedAs sys s (some (serves c, t)) = subst (StartedAs sys s) (sym e ∙ h) started in
    r.0

Running-Tidy : (sys : System) (s : Store) (c : Config) (t : Store) → Running sys s c t → Tidy t
Running-Tidy sys s c t r = record {
  alone = subst (λ (descs : ℕ → Desc). (i : ℕ) → Alone (descs i)) (sym r.descs) (λ i. (refl, refl));
  slot = omega (arith, r.idx);
}

-- Every entry is alone on its chain, and a walk along a chain takes no step.
abbrev pub AllAlone : {A : Type 0} → Option (A × Store) → Type 0
AllAlone none = Unit
AllAlone (some (a, t)) =
    ((i : ℕ) → Alone (t.descs i)) × ((hash : ℕ) → TakesNoStep (looked_up t hash))

TidyAfter-AllAlone : {A : Type 0} (r : Option (A × Store)) → TidyAfter r → AllAlone r
TidyAfter-AllAlone none h = tt
TidyAfter-AllAlone (some (a, t)) h =
    (h.alone, λ hash. walk-TakesNoStep t hash (t.xxtable (hash % desc_hash_table_size)) h)

-- Whatever lines a server that has started is given, whichever of the calls fail: as long as C leaves
-- nothing undefined, no two entries of its table are ever linked, and every walk along a chain ends
-- at its first entry, so the code that goes along a chain and takes an entry out of one is never
-- needed.
pub chains_stay_single :
    (xxh64 : List ℕ → ℕ) (sys : System) (opts : List Opt) (s : Store) (c : Config) (t : Store)
    (lines : List (List ℕ))
    → main sys opts s ≡ some (serves c, t)
    → AllAlone (serve_lines xxh64 lines t)
chains_stay_single xxh64 sys opts s c t lines h =
    TidyAfter-AllAlone (serve_lines xxh64 lines t) (
      (serve_lines-Keeps xxh64 lines).at t (Running-Tidy sys s c t (main-Running sys opts s c t h)))
