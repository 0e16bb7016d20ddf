-- ===== src/Privileges/Group.antt =====
-- `must_get_group` of arping.c, with `strtol` in base 0, of numbers that fit a `long`.
use arping.Prelude.{
  ℕ, ◌+◌, ◌*◌, Bool, ◌&&◌, ◌||◌, Option, none, some, [], ◌∷◌, ◌==◌, ltb, if◌then◌else◌, ℤ, pos,
  Text,
}
use arping.Mac.{is_xdigit}
use arping.Mac.Scan.{skip_space, digit_value}
use arping.Options.{to_uint, minus}

-- `getgrnam`.
pub record Groups : Type 0 where
  pub getgrnam : Text → Option ℕ

unfoldable pub is_digit_of : ℕ → ℕ → Bool
is_digit_of base c = is_xdigit c && ltb (digit_value c) base

-- The digits at the front, onto `v`, and what follows them.
unfoldable pub read_base : ℕ → ℕ → Text → ℕ × Text
read_base base v [] = (v, [])
read_base base v (c ∷ s) =
    let rest = read_base base (v * base + digit_value c) s in
    if is_digit_of base c then rest else (v, c ∷ s)

-- At least one digit.
unfoldable pub based : ℕ → Text → Option (ℕ × Text)
based base [] = none
based base (c ∷ s) = if is_digit_of base c then some (read_base base 0 (c ∷ s)) else none

-- `0x` and a hexadecimal digit, `0`, or neither.
unfoldable pub unsigned_number : Text → Option (ℕ × Text)
unsigned_number (z ∷ x ∷ s) =
    if z == b'0'
    then (if x == b'x' || x == b'X'
        then elim (based 16 s) [ some r ↦ some r | none ↦ some (0, x ∷ s) ]
        else based 8 (z ∷ x ∷ s))
    else based 10 (z ∷ x ∷ s)
unsigned_number s = based 10 s

-- The number, and `endp`; without a number `endp` is the start.
unfoldable pub strtol : Text → ℤ × Text
strtol ident = elim (skip_space ident) [
  | [] ↦ (pos 0, ident)
  | c ∷ s ↦
      if c == b'-'
      then elim (unsigned_number s) [ some (v, end) ↦ (minus v, end) | none ↦ (pos 0, ident) ]
      else if c == b'+'
      then elim (unsigned_number s) [ some (v, end) ↦ (pos v, end) | none ↦ (pos 0, ident) ]
      else elim (unsigned_number (c ∷ s)) [ some (v, end) ↦ (pos v, end) | none ↦ (pos 0, ident) ]
]

-- The group, or `exit(1)`.
pub data Found : Type 0 where
  group : ℕ → Found
  no_group : Found

-- A name first, then a number, all of which must be read.
unfoldable pub must_get_group : Groups → Text → Found
must_get_group gs [] = no_group
must_get_group gs (c ∷ ident) = elim (gs.getgrnam (c ∷ ident)) [
  | some gid ↦ group gid
  | none ↦
      let (r, endp) = strtol (c ∷ ident) in
      elim endp [ [] ↦ group (to_uint r) | d ∷ rest ↦ no_group ]
]
