-- ===== src/Parser/Number.antt =====
-- The functions of the C library on text that src/parser.c calls: `atol` and `atoll`, `%ld` of
-- `snprintf`, `strlen` and `strcasecmp`. `long` and `long long` have 64 bits.
use solidbits.Prelude.{
  ℕ, zero, suc, ◌+◌, ◌-◌, ◌*◌, ◌/◌, ◌%◌, ◌^◌, Bool, ◌&&◌, ◌||◌, List, [], ◌∷◌, ◌++◌, take, length,
  ltb, leb, ◌==◌, if◌then◌else◌,
}
use solidbits.Prelude.Int.{ℤ, pos, negsuc}
use solidbits.Store.{bytes_eq}

-- The characters of a C string: those before the first null byte.
unfoldable pub c_string : List ℕ → List ℕ
c_string [] = []
c_string (c ∷ cs) = if c == 0 then [] else c ∷ c_string cs

abbrev pub to_lower : ℕ → ℕ
to_lower c = if leb b'A' c && leb c b'Z' then c + 32 else c

abbrev pub lower_all : List ℕ → List ℕ
lower_all [] = []
lower_all (c ∷ cs) = to_lower c ∷ lower_all cs

-- `!strcasecmp(a, b)`
unfoldable pub same_text : List ℕ → List ℕ → Bool
same_text a b = bytes_eq (lower_all a) (lower_all b)

-- `isspace` in the C locale.
abbrev pub is_space : ℕ → Bool
is_space c = c == b' ' || (leb 9 c && leb c 13)

abbrev pub is_digit : ℕ → Bool
is_digit c = leb b'0' c && leb c b'9'

unfoldable pub digits_value : List ℕ → ℕ → ℕ
digits_value [] n = n
digits_value (c ∷ cs) n = if is_digit c then digits_value cs (n * 10 + (c - b'0')) else n

-- Out of range, `strtol` returns the nearest `long`.
abbrev pub clamp_pos : ℕ → ℤ
clamp_pos n = if ltb n (2 ^ 63) then pos n else pos (2 ^ 63 - 1)

abbrev pub clamp_neg : ℕ → ℤ
clamp_neg n =
    if n == 0 then pos 0 else if ltb n (2 ^ 63) then negsuc (n - 1) else negsuc (2 ^ 63 - 1)

unfoldable pub signed_value : List ℕ → ℤ
unfolding digits_value
signed_value [] = pos 0
signed_value (c ∷ cs) =
    if c == b'-'
    then clamp_neg (digits_value cs 0)
    else if c == b'+'
    then clamp_pos (digits_value cs 0)
    else clamp_pos (digits_value (c ∷ cs) 0)

unfoldable pub atol : List ℕ → ℤ
unfolding signed_value
atol [] = signed_value []
atol (c ∷ cs) = if is_space c then atol cs else signed_value (c ∷ cs)

-- The decimal digits of a number, put before `acc`, with fuel for their number.
unfoldable pub decimal_onto : ℕ → ℕ → List ℕ → List ℕ
decimal_onto zero n acc = acc
decimal_onto (suc fuel) n acc =
    let rest = decimal_onto fuel (n / 10) ((b'0' + n % 10) ∷ acc) in
    if ltb n 10 then (b'0' + n) ∷ acc else rest

-- The text of "%ld\n" for a number that is not negative; twenty digits are enough for a `long`.
unfoldable pub decimal_line : ℕ → List ℕ
unfolding decimal_onto
decimal_line n = decimal_onto 20 n (b'\n' ∷ [])

-- `char buf[16]` of `parse_and_execute`.
abbrev pub buf_size : ℕ
buf_size = 16

-- What `snprintf(buf, size, …)` makes of a text: it cuts off what does not fit, and ends it with a null
-- byte; the null byte behind a text that fits is left out.
unfoldable pub printed : ℕ → List ℕ → List ℕ
printed size text = if ltb (length text) size then text else take (size - 1) text ++ 0 ∷ []
