-- ===== src/Startup/Listen.antt =====
-- What -l and -w make of well-formed arguments.
use solidbits.Prelude.{
  ℕ, zero, suc, ◌%◌, ◌^◌, ◌≡◌, ◌≢◌, ◌≤◌, ◌<◌, refl, ap, ap₂, ◌∙◌, true, false, some, List, [], ◌∷◌,
  ◌++◌, take, drop, length, length-append, take-append, drop-append, take-append-drop, ltb, ◌==◌,
  arith,
}
use solidbits.Prelude.Int.{pos}
use solidbits.Parser.Number.{decimal_onto, digits_value}
use solidbits.Parser.Decimal.{decimal_onto_head, atol-decimal_onto}
use solidbits.Startup.Address.{
  Config, atoi, to_int, cut_colon, set_port, set_both, set_address, set_addr_port, is_port,
}

-- A number in decimal digits.
abbrev pub digits : ℕ → List ℕ
digits n = decimal_onto 20 n []

abbrev pub NoColon : List ℕ → Type 0
NoColon [] = Unit
NoColon (c ∷ cs) = (c ≢ b':') × NoColon cs

pub atoi-digits : (n : ℕ) → n < 2 ^ 31 → atoi (digits n) ≡ pos n
unfolding atoi digits_value
atoi-digits n h =
    let small : ltb (n % 2 ^ 32) (2 ^ 31) ≡ true = ground arith in
    let same : n % 2 ^ 32 ≡ n = omega arith in
    ap to_int (atol-decimal_onto n [] (omega arith) refl) ∙ rw small (ap pos same)

pub set_port-digits :
    (c : Config) (n : ℕ) → 1 ≤ n → n ≤ 65534 → set_port c (digits n) ≡ some (record c { port = n })
set_port-digits c n a b =
    let good : is_port (pos n) ≡ true = ground arith in rw (atoi-digits n (omega arith), good) refl

NoColon-drop : (n : ℕ) (xs : List ℕ) → NoColon xs → NoColon (drop n xs)
NoColon-drop zero xs h = h
NoColon-drop (suc n) [] h = tt
NoColon-drop (suc n) (x ∷ xs) (a, h) = NoColon-drop n xs h

cut_colon_lem : (xs ys : List ℕ) → NoColon xs → cut_colon (xs ++ (b':' ∷ ys)) ≡ (xs, some ys)
unfolding cut_colon
cut_colon_lem [] ys h = refl
cut_colon_lem (x ∷ xs) ys (a, h) =
    let other : (x == b':') ≡ false = ground arith in rw (other, cut_colon_lem xs ys h) refl

colon_digits_length :
    (xs : List ℕ) (n : ℕ)
    → 7 ≤ length xs
    → n < 2 ^ 31
    → ltb (length (xs ++ (b':' ∷ digits n))) 9 ≡ false
colon_digits_length xs n h l =
    let (d, rest, lt, e) = decimal_onto_head 19 n [] (omega arith) in
    let k : length (digits n) ≡ suc (length rest) = ap length e in
    ground (arith, length-append xs (b':' ∷ digits n))

set_both_lem :
    (inet_addr : List ℕ → ℕ) (c : Config) (k : ℕ) (address : List ℕ) (n : ℕ)
    → NoColon address
    → k ≤ length address
    → 1 ≤ n
    → n ≤ 65534
    → set_both inet_addr c
        (take k (address ++ (b':' ∷ digits n)))
        (cut_colon (drop k (address ++ (b':' ∷ digits n))))
      ≡ some (record c { address = inet_addr address; port = n })
set_both_lem inet_addr c k address n clean h a b =
    ap₂ (set_both inet_addr c) (take-append k address (b':' ∷ digits n) h) (
      ap cut_colon (drop-append k address (b':' ∷ digits n) h)
      ∙ cut_colon_lem (drop k address) (digits n) (NoColon-drop k address clean))
    ∙ ap₂ (set_address inet_addr) (take-append-drop k address) (set_port-digits c n a b)

-- An address of at least seven characters without a colon, as every address in dotted decimal is, then a
-- colon and the digits of a port from 1 to 65534: `set_addr_port` sets that port, and the address
-- that `inet_addr` makes of the text before the colon, and nothing else.
pub set_addr_port_lem :
    (inet_addr : List ℕ → ℕ) (c : Config) (address : List ℕ) (n : ℕ)
    → NoColon address
    → 7 ≤ length address
    → 1 ≤ n
    → n ≤ 65534
    → set_addr_port inet_addr c (address ++ (b':' ∷ digits n))
      ≡ some (record c { address = inet_addr address; port = n })
unfolding set_addr_port
set_addr_port_lem inet_addr c [] n clean h a b = absurd (omega arith)
set_addr_port_lem inet_addr c (x ∷ xs) n (clear, clean) h a b =
    let other : (x == b':') ≡ false = ground arith in
    let long : ltb (length (x ∷ xs ++ (b':' ∷ digits n))) 9 ≡ false =
      colon_digits_length (x ∷ xs) n h (omega arith) in
    rw (other, long) (set_both_lem inet_addr c 7 (x ∷ xs) n (clear, clean) h a b)
