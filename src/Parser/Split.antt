-- ===== src/Parser/Split.antt =====
-- `get_arg_count` and `split_fill` agree with the words of the line, and so with each other.
use solidbits.Prelude.{
  ℕ, zero, suc, ◌+◌, ◌≤◌, ◌≡◌, refl, sym, ap, ◌∙◌, not, ◌&&◌, List, [], ◌∷◌, length, take, drop,
  take-length, ltb, ◌==◌, if◌then◌else◌, inl, inr, ◌⊎◌, arith,
}
use solidbits.Parser.Words.{
  count_from, get_arg_count, skip_spaces, skip_word, head_word, split_args, split_fill, add_word,
  later_words, words,
}

count_from_lem :
    (str : List ℕ) (i before l c : ℕ)
    → l ≤ i
    → ltb l i ≡ (ltb 0 i && not (before == b' '))
    → count_from str i before l c
      ≡ c + (if ltb l i then 1 + length (later_words str) else length (words str))
unfolding count_from words
count_from_lem [] i before l c le inside = ground arith
count_from_lem (x ∷ str) i before l c le inside = ground (
  arith,
  count_from_lem str (i + 1) x (if x == b' ' then i + 1 else l)
      (if x == b' ' && (ltb 0 i && not (before == b' ')) then c + 1 else c),
)

-- `get_arg_count` counts the words of the line.
pub get_arg_count_lem : (str : List ℕ) → get_arg_count str ≡ length (words str)
unfolding get_arg_count
get_arg_count_lem str = omega (arith, count_from_lem str 0 0 0 0 (omega arith) refl)

words-skip_spaces : (str : List ℕ) → words (skip_spaces str) ≡ words str
unfolding words skip_spaces
words-skip_spaces [] = refl
words-skip_spaces (c ∷ cs) = ground (arith, words-skip_spaces cs)

later_words-skip_word : (str : List ℕ) → words (skip_word str) ≡ later_words str
unfolding words skip_word
later_words-skip_word [] = refl
later_words-skip_word (c ∷ cs) = ground (arith, later_words-skip_word cs)

-- What a line without leading spaces is: empty, or a word and later words.
skipped :
    (str : List ℕ)
    → words (skip_spaces str)
      ≡ add_word (head_word (skip_spaces str)) (words (skip_word (skip_spaces str)))
unfolding words
skipped str =
    ap (add_word (head_word (skip_spaces str))) (sym (later_words-skip_word (skip_spaces str)))

head_word-skip_spaces :
    (str : List ℕ) → head_word (skip_spaces str) ≡ [] → words (skip_word (skip_spaces str)) ≡ []
unfolding words skip_spaces skip_word
head_word-skip_spaces [] e = refl
head_word-skip_spaces (c ∷ cs) e = ground (arith, head_word-skip_spaces cs)

-- A line has no word, or the one at its start and those after it.
abbrev Stepped : List ℕ → Type 0
Stepped str =
    let arg = skip_spaces str in
    ((words str ≡ []) × (words (skip_word arg) ≡ []))
    ⊎ (words str ≡ head_word arg ∷ words (skip_word arg))

words_step : (str : List ℕ) → Stepped str
words_step str = step (head_word (skip_spaces str)) refl
  where
    split : words str ≡ add_word (head_word (skip_spaces str)) (words (skip_word (skip_spaces str)))
    split = sym (words-skip_spaces str) ∙ skipped str

    step : (w : List ℕ) → head_word (skip_spaces str) ≡ w → Stepped str
    step [] e =
        let over = head_word-skip_spaces str e in
        inl (split ∙ ap (λ w. add_word w (words (skip_word (skip_spaces str)))) e ∙ over, over)
    step (c ∷ w) e = inr (split ∙ rw e)

split_args_lem :
    (count : ℕ) (str : List ℕ)
    → count ≤ length (words str)
    → split_args count str ≡ take count (words str)
unfolding split_args
split_args_lem zero str h = refl
split_args_lem (suc count) str h = elim (words_step str) [
  | inl (e, _) ↦ absurd (omega (arith, ap length e))
  | inr e ↦ rw (e, split_args_lem count (skip_word (skip_spaces str)) (omega (arith, ap length e)))
]

-- Split by its own count, a line gives its words but the first, the command.
pub split_fill_lem : (str : List ℕ) → split_fill str (get_arg_count str) ≡ drop 1 (words str)
unfolding split_fill
split_fill_lem str =
    let rest = skip_word (skip_spaces str) in
    elim (words_step str) [
      | inl (e, over) ↦ rw (get_arg_count_lem str, e) (split_args_lem 0 rest (omega arith))
      | inr e ↦
          rw (get_arg_count_lem str, e)
            (ap (λ n. split_args n rest) (omega arith)
              ∙ split_args_lem (length (words rest)) rest (omega arith)
              ∙ take-length (length (words rest)) (words rest) (omega arith))
    ]
