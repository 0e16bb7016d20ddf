-- ===== src/Mac/Scan.antt =====
-- `get_mac_addr` of arping.c, over the directives of `sscanf` that its formats hold: `%x`, `%2x`
-- and literal bytes. `%x` skips white space, takes a sign and a `0x`, and reads at most its width.
use arping.Prelude.{
  ℕ, zero, suc, ◌+◌, ◌*◌, ◌-◌, ◌%◌, Bool, List, [], ◌∷◌, ◌++◌, ◌||◌, ◌&&◌, Option, none, some, ◌==◌,
  leb, take, drop, if◌then◌else◌, Text, codes,
}
use arping.Mac.{EthAddr, is_xdigit}

-- `isspace`.
unfoldable pub is_space : ℕ → Bool
is_space c = c == 32 || (leb 9 c && leb c 13)

unfoldable pub skip_space : Text → Text
skip_space [] = []
skip_space (c ∷ s) = if is_space c then skip_space s else c ∷ s

unfoldable pub digit_value : ℕ → ℕ
digit_value c = if leb c b'9' then c - b'0' else if leb c b'F' then c - b'A' + 10 else c - b'a' + 10

-- The digits at the front, onto the value `v`, and what follows them.
unfoldable pub read_digits : ℕ → Text → ℕ × Text
read_digits v [] = (v, [])
read_digits v (c ∷ s) =
    let rest = read_digits (v * 16 + digit_value c) s in if is_xdigit c then rest else (v, c ∷ s)

-- At least one digit.
unfoldable pub digits : Text → Option (ℕ × Text)
digits [] = none
digits (c ∷ s) = if is_xdigit c then some (read_digits 0 (c ∷ s)) else none

-- Behind `0x` there must be a digit: the prefix alone is no match.
unfoldable pub number : Text → Option (ℕ × Text)
number [] = none
number (c ∷ []) = digits (c ∷ [])
number (c ∷ d ∷ s) = if c == b'0' && (d == b'x' || d == b'X') then digits s else digits (c ∷ d ∷ s)

-- An `unsigned int`; a minus sign negates it.
abbrev pub uint_mod : ℕ
uint_mod = 4294967296

unfoldable pub negate : Option (ℕ × Text) → Option (ℕ × Text)
negate none = none
negate (some (v, s)) = some ((uint_mod - v % uint_mod) % uint_mod, s)

unfoldable pub wrap : Option (ℕ × Text) → Option (ℕ × Text)
wrap none = none
wrap (some (v, s)) = some (v % uint_mod, s)

unfoldable pub signed_number : Text → Option (ℕ × Text)
signed_number [] = none
signed_number (c ∷ s) =
    if c == b'-'
    then negate (number s)
    else if c == b'+'
    then wrap (number s)
    else wrap (number (c ∷ s))

unfoldable pub put_back : Text → Option (ℕ × Text) → Option (ℕ × Text)
put_back beyond none = none
put_back beyond (some (v, s)) = some (v, s ++ beyond)

-- One `%x` of width `w`, where 0 is no width.
unfoldable pub scan_hex : ℕ → Text → Option (ℕ × Text)
scan_hex zero s = signed_number s
scan_hex (suc w) s = put_back (drop (suc w) s) (signed_number (take (suc w) s))

pub data Directive : Type 0 where
  hex : ℕ → Directive
  lit : ℕ → Directive

-- The directives of a format.
unfoldable pub directives : Text → List Directive
directives [] = []
directives (c ∷ []) = lit c ∷ []
directives (c ∷ d ∷ []) = if c == b'%' then hex 0 ∷ [] else lit c ∷ lit d ∷ []
directives (c ∷ d ∷ e ∷ s) =
    let plain = directives (d ∷ e ∷ s) in
    let short = directives (e ∷ s) in
    let wide = directives s in
    if c == b'%'
    then (if d == b'x' then hex 0 ∷ short else hex (d - b'0') ∷ wide)
    else lit c ∷ plain

unfoldable pub eat : ℕ → Text → Option Text
eat c [] = none
eat c (x ∷ s) = if x == c then some s else none

-- The values that `sscanf` stores before its first mismatch.
unfoldable pub sscanf : Text → List Directive → List ℕ
sscanf s [] = []
sscanf s (lit c ∷ ds) = elim (eat c s) [ none ↦ [] | some r ↦ sscanf r ds ]
sscanf s (hex w ∷ ds) = elim (scan_hex w (skip_space s)) [
  | none ↦ []
  | some (v, r) ↦ v ∷ sscanf r ds
]

-- `formats`, up to its `NULL`.
abbrev pub formats : List Text
formats = codes "%x:%x:%x:%x:%x:%x" ∷ codes "%2x%x.%2x%x.%2x%x" ∷ codes "%x-%x-%x-%x-%x-%x" ∷ []

-- `out[c] = n[c] & 0xff` for six values; other counts are no match.
unfoldable pub six : List ℕ → Option EthAddr
six (a ∷ b ∷ c ∷ d ∷ e ∷ f ∷ []) =
    some (record {
      m0 = a % 256;
      m1 = b % 256;
      m2 = c % 256;
      m3 = d % 256;
      m4 = e % 256;
      m5 = f % 256;
    })
six _ = none

unfoldable pub try_formats : Text → List Text → Option EthAddr
try_formats s [] = none
try_formats s (f ∷ fs) =
    let rest = try_formats s fs in
    elim (six (sscanf s (directives f))) [ none ↦ rest | some m ↦ some m ]

unfoldable pub get_mac_addr : Text → Option EthAddr
get_mac_addr s = try_formats s formats
