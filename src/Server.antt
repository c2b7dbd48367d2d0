-- ===== src/Server.antt =====
-- The server as a whole: src/main.c starts it, and the pool runs the lines of its clients through
-- src/parser.c, here one after another.
pub mod Chains
pub mod Ops
pub mod Change
pub mod Kept
pub mod Went
pub mod First
pub mod Bits
pub mod Slots
pub mod Others
pub mod Keys
pub mod Many
use solidbits.Prelude.{ℕ, List, [], ◌∷◌}
use solidbits.Store.{M, pure, ◌>>=◌}
use solidbits.Parser.Answer.{Answer}
use solidbits.Parser.Execute.{parse_and_execute}

-- The answers to lines that are run one after another.
unfoldable pub serve_lines : (List ℕ → ℕ) → List (List ℕ) → M (List Answer)
serve_lines xxh64 [] = pure []
serve_lines xxh64 (line ∷ lines) = do
  answer ← parse_and_execute xxh64 line
  answers ← serve_lines xxh64 lines
  pure (answer ∷ answers)
