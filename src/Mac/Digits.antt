-- ===== src/Mac/Digits.antt =====
-- How `sscanf` reads what `%.2x` prints: two digits, four digits, digits behind a `-`.
use arping.Prelude.{
  ◌-◌, ◌≢◌, ℕ, ◌+◌, ◌*◌, ◌/◌, ◌%◌, ◌<◌, ◌≡◌, refl, ap, true, false, [], ◌∷◌, List, some, arith,
  ◌==◌, Text,
}
use arping.Mac.{is_xdigit}
use arping.Mac.Print.{hex_digit, hex2}
use arping.Mac.Scan.{
  is_space, skip_space, number, digits, signed_number, wrap, digit_value, read_digits, scan_hex,
  put_back, eat, uint_mod, negate, sscanf, Directive, hex, lit,
}

-- What a digit is not, and what it reads as.
pub record IsDigit (d c : ℕ) : Type 0 where
  pub digit : is_xdigit c ≡ true
  pub value : digit_value c ≡ d
  pub no_space : is_space c ≡ false
  pub no_minus : (c == b'-') ≡ false
  pub no_plus : (c == b'+') ≡ false
  pub no_x : (c == b'x') ≡ false
  pub no_big_x : (c == b'X') ≡ false

pub hex_digit-IsDigit : (d : ℕ) → d < 16 → IsDigit d (hex_digit d)
unfolding hex_digit is_xdigit digit_value is_space
hex_digit-IsDigit d h = ground arith

-- `rest` starts with no digit.
abbrev pub Stops : Text → Type 0
Stops rest = (v : ℕ) → read_digits v rest ≡ (v, rest)

pub Stops-nil : Stops []
unfolding read_digits
Stops-nil v = refl

pub Stops-cons : (c : ℕ) (s : Text) → is_xdigit c ≡ false → Stops (c ∷ s)
unfolding read_digits
Stops-cons c s h v = ground arith

sscanf_hit :
    (w : ℕ) (s : Text) (ds : List Directive) {v : ℕ} {r : Text}
    → scan_hex w (skip_space s) ≡ some (v, r)
    → sscanf s (hex w ∷ ds) ≡ v ∷ sscanf r ds
unfolding sscanf
sscanf_hit w s ds e = ground arith

module _ (p q x y : ℕ) (dx : IsDigit p x) (dy : IsDigit q y) where
  read_digits_two :
      (v : ℕ) (rest : Text)
      → read_digits v (x ∷ y ∷ rest) ≡ read_digits ((v * 16 + p) * 16 + q) rest
  unfolding read_digits
  read_digits_two v rest = ground (arith, dx, dy)

  number_two : (rest : Text) → number (x ∷ y ∷ rest) ≡ some (read_digits (p * 16 + q) rest)
  unfolding number digits
  number_two rest = ground (arith, dx, dy, read_digits_two 0 rest)

  signed_number_two :
      (rest : Text) → signed_number (x ∷ y ∷ rest) ≡ wrap (some (read_digits (p * 16 + q) rest))
  unfolding signed_number
  signed_number_two rest = ground (arith, dx, dy, number_two rest)

module _ (b : ℕ) (h : b < 256) where
  high : IsDigit (b / 16) (hex_digit (b / 16))
  high = hex_digit-IsDigit (b / 16) (omega arith)

  low : IsDigit (b % 16) (hex_digit (b % 16))
  low = hex_digit-IsDigit (b % 16) (omega arith)

  -- A text that starts with a digit has no white space to skip.
  skip_space-hex2 : (rest : Text) → skip_space (hex2 b rest) ≡ hex2 b rest
  unfolding skip_space hex2
  skip_space-hex2 rest = ground (arith, high)

  signed_number-hex2 : (rest : Text) → Stops rest → signed_number (hex2 b rest) ≡ some (b, rest)
  unfolding hex2 wrap
  signed_number-hex2 rest stop =
      rw (signed_number_two (b / 16) (b % 16) _ _ high low rest, stop (b / 16 * 16 + b % 16))
        (ap (λ n. some (n, rest)) (omega arith))

  signed_number-minus :
      (rest : Text) → Stops rest → (v : ℕ) × (signed_number (b'-' ∷ hex2 b rest) ≡ some (v, rest))
  unfolding signed_number hex2 negate
  signed_number-minus rest stop =
      let n = number_two (b / 16) (b % 16) _ _ high low rest in
      let v = b / 16 * 16 + b % 16 in ((uint_mod - v % uint_mod) % uint_mod, rw (n, stop v) refl)

  pub sscanf-hex2 :
      (rest : Text) (ds : List Directive)
      → Stops rest
      → sscanf (hex2 b rest) (hex 0 ∷ ds) ≡ b ∷ sscanf rest ds
  unfolding scan_hex
  sscanf-hex2 rest ds stop =
      sscanf_hit 0 _ ds (rw (skip_space-hex2 rest) (signed_number-hex2 rest stop))

  scan_hex-hex2_wide : (rest : Text) → scan_hex 2 (hex2 b rest) ≡ some (b, rest)
  unfolding scan_hex put_back hex2
  scan_hex-hex2_wide rest = rw (signed_number-hex2 [] Stops-nil)

  pub sscanf-hex2_wide :
      (rest : Text) (ds : List Directive) → sscanf (hex2 b rest) (hex 2 ∷ ds) ≡ b ∷ sscanf rest ds
  sscanf-hex2_wide rest ds = sscanf_hit 2 _ ds (rw (skip_space-hex2 rest) (scan_hex-hex2_wide rest))

  -- Behind a `-` the number is negated.
  pub sscanf_negative :
      (rest : Text) (ds : List Directive)
      → Stops rest
      → (v : ℕ) × (sscanf (b'-' ∷ hex2 b rest) (hex 0 ∷ ds) ≡ v ∷ sscanf rest ds)
  unfolding scan_hex skip_space is_space
  sscanf_negative rest ds stop =
      let (v, e) = signed_number-minus rest stop in (v, sscanf_hit 0 _ ds e)

module _ (a b : ℕ) (ha : a < 256) (hb : b < 256) where
  signed_number_four :
      (rest : Text) → Stops rest → (v : ℕ) × (signed_number (hex2 a (hex2 b rest)) ≡ some (v, rest))
  unfolding hex2 wrap
  signed_number_four rest stop =
      let first = signed_number_two (a / 16) (a % 16) _ _ (high a ha) (low a ha) (hex2 b rest) in
      let u = a / 16 * 16 + a % 16 in
      let second = read_digits_two (b / 16) (b % 16) _ _ (high b hb) (low b hb) u rest in
      let v = (u * 16 + b / 16) * 16 + b % 16 in (v % uint_mod, rw (first, second, stop v) refl)

  -- Four digits make one number.
  pub sscanf_four :
      (rest : Text) (ds : List Directive)
      → Stops rest
      → (v : ℕ) × (sscanf (hex2 a (hex2 b rest)) (hex 0 ∷ ds) ≡ v ∷ sscanf rest ds)
  unfolding scan_hex
  sscanf_four rest ds stop =
      let (v, e) = signed_number_four rest stop in
      (v, sscanf_hit 0 _ ds (rw (skip_space-hex2 a ha (hex2 b rest)) e))

pub sscanf_lit :
    (c : ℕ) (s : Text) (ds : List Directive) → sscanf (c ∷ s) (lit c ∷ ds) ≡ sscanf s ds
unfolding sscanf eat
sscanf_lit c s ds = ground arith

pub sscanf_lit_ne :
    (c x : ℕ) (s : Text) (ds : List Directive) → x ≢ c → sscanf (x ∷ s) (lit c ∷ ds) ≡ []
unfolding sscanf eat
sscanf_lit_ne c x s ds h = ground arith
