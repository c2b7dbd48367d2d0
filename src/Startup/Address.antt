-- ===== src/Startup/Address.antt =====
-- src/helper.c, `set_addr_port`: the argument of -l. `inet_addr` is the operating system's.
use solidbits.Prelude.{
  ℕ, ◌-◌, ◌%◌, ◌^◌, Bool, false, ◌&&◌, Option, none, some, List, [], ◌∷◌, ◌++◌, take, drop, length,
  ltb, ◌==◌, if◌then◌else◌,
}
use solidbits.Prelude.Int.{ℤ, pos, negsuc}
use solidbits.Parser.Number.{atol}

-- What `server` is told by the command line.
pub record Config : Type 0 where
  pub address : ℕ
  pub port : ℕ
  pub worker : ℤ
  pub debug : Bool
  pub pid : Option (List ℕ)
  pub dir : Option (List ℕ)

-- A `long` cut to an `int` of 32 bits.
abbrev pub to_int : ℤ → ℤ
to_int (pos n) = let m = n % 2 ^ 32 in if ltb m (2 ^ 31) then pos m else negsuc (2 ^ 32 - 1 - m)
to_int (negsuc n) = let m = n % 2 ^ 32 in if ltb m (2 ^ 31) then negsuc m else pos (2 ^ 32 - 1 - m)

-- `atoi`, which is `strtol` cut to an `int` in the GNU C library.
unfoldable pub atoi : List ℕ → ℤ
unfolding atol
atoi s = to_int (atol s)

-- `atoi(str) > 0 && atoi(str) < 65535`
abbrev pub is_port : ℤ → Bool
is_port (pos n) = ltb 0 n && ltb n 65535
is_port (negsuc n) = false

abbrev pub magnitude : ℤ → ℕ
magnitude (pos n) = n
magnitude (negsuc n) = 0

abbrev pub set_port : Config → List ℕ → Option Config
set_port c str =
    if is_port (atoi str) then some (record c { port = magnitude (atoi str) }) else none

-- The text before the first colon, and the text after it if there is one.
unfoldable pub cut_colon : List ℕ → List ℕ × Option (List ℕ)
cut_colon [] = ([], none)
cut_colon (c ∷ cs) = let r = cut_colon cs in if c == b':' then ([], some cs) else (c ∷ r.0, r.1)

-- The end of `set_addr_port`, which it does not reach with a bad port.
abbrev pub set_address : (List ℕ → ℕ) → List ℕ → Option Config → Option Config
set_address inet_addr orig none = none
set_address inet_addr orig (some c) = some (record c { address = inet_addr orig })

-- The branch for a text that has an address: a port after a colon behind the first seven characters.
abbrev pub set_both : (List ℕ → ℕ) → Config → List ℕ → List ℕ × Option (List ℕ) → Option Config
set_both inet_addr c front (before, none) = set_address inet_addr (front ++ before) (some c)
set_both inet_addr c front (before, some port) =
    set_address inet_addr (front ++ before) (set_port c port)

-- `none` is -1; nothing has been set then.
unfoldable pub set_addr_port : (List ℕ → ℕ) → Config → List ℕ → Option Config
unfolding cut_colon atoi
set_addr_port inet_addr c [] = none
set_addr_port inet_addr c (x ∷ str) =
    if x == b':'
    then set_port c str
    else if ltb (length (x ∷ str)) 9
    then none
    else set_both inet_addr c (take 7 (x ∷ str)) (cut_colon (drop 7 (x ∷ str)))
