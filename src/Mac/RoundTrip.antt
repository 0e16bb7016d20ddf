-- ===== src/Mac/RoundTrip.antt =====
-- `get_mac_addr` reads back what `format_mac` writes, and the other two notations.
use arping.Mac.Digits.{
  Stops-nil, Stops-cons, sscanf-hex2, sscanf-hex2_wide, sscanf_negative, sscanf_four, sscanf_lit,
  sscanf_lit_ne,
}
use arping.Prelude.{none, ◌∙◌, ℕ, ◌<◌, ◌≡◌, refl, false, [], ◌∷◌, List, some, arith, Text}
use arping.Mac.{EthAddr, IsEth, is_xdigit}
use arping.Mac.Print.{unix_text, hex2, Style, cisco, windows, unix, written}
use arping.Mac.Scan.{sscanf, six, try_formats, directives, get_mac_addr, Directive, hex, lit}

-- The six bytes that are read.
bytes : EthAddr → List ℕ
bytes m = m.m0 ∷ m.m1 ∷ m.m2 ∷ m.m3 ∷ m.m4 ∷ m.m5 ∷ []

six-bytes : (m : EthAddr) → IsEth m → six (bytes m) ≡ some m
unfolding six bytes
six-bytes m h = ground arith

-- A format with one separator between six numbers.
abbrev separated : ℕ → List Directive
separated sep =
    hex 0
    ∷ lit sep
    ∷ hex 0
    ∷ lit sep
    ∷ hex 0
    ∷ lit sep
    ∷ hex 0
    ∷ lit sep
    ∷ hex 0
    ∷ lit sep
    ∷ hex 0
    ∷ []

module _ (sep : ℕ) (d : is_xdigit sep ≡ false) where
  sscanf_field :
      (b : ℕ)
      → b < 256
      → (rest : Text) (ds : List Directive)
      → sscanf (hex2 b (sep ∷ rest)) (hex 0 ∷ lit sep ∷ ds) ≡ b ∷ sscanf rest ds
  sscanf_field b h rest ds =
      rw (sscanf-hex2 b h (sep ∷ rest) (lit sep ∷ ds) (Stops-cons sep rest d)) (rw sscanf_lit)

  sscanf-separated : (m : EthAddr) → IsEth m → sscanf (unix_text sep m) (separated sep) ≡ bytes m
  unfolding unix_text bytes
  sscanf-separated m h =
      rw
        (
          sscanf_field m.m0 h.b0,
          sscanf_field m.m1 h.b1,
          sscanf_field m.m2 h.b2,
          sscanf_field m.m3 h.b3,
          sscanf_field m.m4 h.b4,
          sscanf-hex2 m.m5 h.b5 [] [] Stops-nil,
        )
        (unfold sscanf in refl)

-- `%2x%x.` for two bytes and a dot.
abbrev dotted : List Directive
dotted = hex 2 ∷ hex 0 ∷ lit b'.' ∷ hex 2 ∷ hex 0 ∷ lit b'.' ∷ hex 2 ∷ hex 0 ∷ []

sscanf-dotted : (m : EthAddr) → IsEth m → sscanf (written cisco m) dotted ≡ bytes m
unfolding written bytes is_xdigit
sscanf-dotted m h =
    rw
      (
        sscanf-hex2_wide m.m0 h.b0,
        sscanf_field b'.' refl m.m1 h.b1,
        sscanf-hex2_wide m.m2 h.b2,
        sscanf_field b'.' refl m.m3 h.b3,
        sscanf-hex2_wide m.m4 h.b4,
        sscanf-hex2 m.m5 h.b5 [] [] Stops-nil,
      )
      (unfold sscanf in refl)

module _ (s f : Text) (fs : List Text) where
  try_hit : {m : EthAddr} → six (sscanf s (directives f)) ≡ some m → try_formats s (f ∷ fs) ≡ some m
  unfolding try_formats
  try_hit e = ground arith

  try_miss : six (sscanf s (directives f)) ≡ none → try_formats s (f ∷ fs) ≡ try_formats s fs
  unfolding try_formats
  try_miss e = ground arith

module _ (a b : ℕ) (ha : a < 256) (hb : b < 256) (rest : Text) (ds : List Directive) where
  -- Four digits and a dot fail a `:`.
  four_dot : six (sscanf (hex2 a (hex2 b (b'.' ∷ rest))) (hex 0 ∷ lit b':' ∷ ds)) ≡ none
  unfolding six is_xdigit
  four_dot =
      let (v, e) =
        sscanf_four a b ha hb (b'.' ∷ rest) (lit b':' ∷ ds) (Stops-cons b'.' rest refl) in
      rw (e, sscanf_lit_ne b':' b'.' rest ds (omega arith)) refl

  -- Two digits and a dash fail a `:`.
  two_dash : six (sscanf (hex2 a (b'-' ∷ rest)) (hex 0 ∷ lit b':' ∷ ds)) ≡ none
  unfolding six is_xdigit
  two_dash =
      rw
        (
          sscanf-hex2 a ha (b'-' ∷ rest) (lit b':' ∷ ds) (Stops-cons b'-' rest refl),
          sscanf_lit_ne b':' b'-' rest ds (omega arith),
        )
        refl

  -- Behind a dash the two digits are a negative number, and a second dash fails a `.`.
  two_dashes :
      six (sscanf (hex2 a (b'-' ∷ hex2 b (b'-' ∷ rest))) (hex 2 ∷ hex 0 ∷ lit b'.' ∷ ds)) ≡ none
  unfolding six is_xdigit
  two_dashes =
      let (v, e) = sscanf_negative b hb (b'-' ∷ rest) (lit b'.' ∷ ds) (Stops-cons b'-' rest refl) in
      rw
        (
          sscanf-hex2_wide a ha (b'-' ∷ hex2 b (b'-' ∷ rest)) (hex 0 ∷ lit b'.' ∷ ds),
          e,
          sscanf_lit_ne b'.' b'-' rest ds (omega arith),
        )
        refl

module _ (m : EthAddr) (h : IsEth m) where
  read_bytes :
      (s f : Text) (fs : List Text)
      → sscanf s (directives f) ≡ bytes m
      → try_formats s (f ∷ fs) ≡ some m
  read_bytes s f fs e = try_hit s f fs (rw e (six-bytes m h))

  unix_read : get_mac_addr (written unix m) ≡ some m
  unfolding get_mac_addr directives written is_xdigit
  unix_read = read_bytes _ _ _ (sscanf-separated b':' refl m h)

  windows_read : get_mac_addr (written windows m) ≡ some m
  unfolding get_mac_addr directives written is_xdigit unix_text
  windows_read =
      try_miss _ _ _ (two_dash m.m0 m.m1 h.b0 h.b1 _ _)
      ∙ try_miss _ _ _ (two_dashes m.m0 m.m1 h.b0 h.b1 _ _)
      ∙ read_bytes _ _ _ (sscanf-separated b'-' refl m h)

  cisco_read : get_mac_addr (written cisco m) ≡ some m
  unfolding get_mac_addr directives written
  cisco_read =
      try_miss _ _ _ (four_dot m.m0 m.m1 h.b0 h.b1 _ _) ∙ read_bytes _ _ _ (sscanf-dotted m h)

-- `get_mac_addr` reads back every address of six bytes that is written in the unix, the windows or
-- the cisco notation.
pub get_mac_addr-written :
    (style : Style) (m : EthAddr) → IsEth m → get_mac_addr (written style m) ≡ some m
get_mac_addr-written unix m h = unix_read m h
get_mac_addr-written windows m h = windows_read m h
get_mac_addr-written cisco m h = cisco_read m h
