-- ===== src/Parser/Words.antt =====
-- src/parser.c, `get_arg_count` and `split_fill`, and the words of a line that they are meant for.
use solidbits.Prelude.{ℕ, zero, suc, ◌+◌, ◌-◌, not, ◌&&◌, List, [], ◌∷◌, ltb, ◌==◌, if◌then◌else◌}

-- The loop of `get_arg_count` at index `i`, with the byte before it.
unfoldable pub count_from : List ℕ → ℕ → ℕ → ℕ → ℕ → ℕ
count_from [] i before l c = if ltb l i then c + 1 else c
count_from (x ∷ str) i before l c =
    count_from str (i + 1) x (if x == b' ' then i + 1 else l)
      (if x == b' ' && (ltb 0 i && not (before == b' ')) then c + 1 else c)

unfoldable pub get_arg_count : List ℕ → ℕ
unfolding count_from
get_arg_count str = count_from str 0 0 0 0

-- `while (pos < len && str[pos] == 32) pos++;` on what is left of the line, and the other loop.
unfoldable pub skip_spaces : List ℕ → List ℕ
skip_spaces [] = []
skip_spaces (c ∷ cs) = if c == b' ' then skip_spaces cs else c ∷ cs

unfoldable pub skip_word : List ℕ → List ℕ
skip_word [] = []
skip_word (c ∷ cs) = if c == b' ' then c ∷ cs else skip_word cs

-- The bytes that the second loop passes over.
unfoldable pub head_word : List ℕ → List ℕ
head_word [] = []
head_word (c ∷ cs) = if c == b' ' then [] else c ∷ head_word cs

-- The `for` loop of `split_fill`.
unfoldable pub split_args : ℕ → List ℕ → List (List ℕ)
unfolding skip_spaces skip_word head_word
split_args zero str = []
split_args (suc count) str =
    let arg = skip_spaces str in head_word arg ∷ split_args count (skip_word arg)

unfoldable pub split_fill : List ℕ → ℕ → List (List ℕ)
unfolding split_args
split_fill str count = split_args (count - 1) (skip_word (skip_spaces str))

-- The specification: the words of a line, separated by one or more spaces.
abbrev pub add_word : List ℕ → List (List ℕ) → List (List ℕ)
add_word [] ws = ws
add_word (c ∷ w) ws = (c ∷ w) ∷ ws

-- The words after the one that the line begins with.
unfoldable pub later_words : List ℕ → List (List ℕ)
unfolding head_word
later_words [] = []
later_words (c ∷ cs) =
    let rest = later_words cs in if c == b' ' then add_word (head_word cs) rest else rest

unfoldable pub words : List ℕ → List (List ℕ)
unfolding later_words
words str = add_word (head_word str) (later_words str)
