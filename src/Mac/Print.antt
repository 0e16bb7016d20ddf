-- ===== src/Mac/Print.antt =====
-- `format_mac` of arping.c, and the two other notations that `is_mac_addr` knows.
use arping.Prelude.{ℕ, ◌+◌, ◌-◌, ◌/◌, ◌%◌, [], ◌∷◌, leb, take, if◌then◌else◌, Text}
use arping.Mac.{EthAddr}

unfoldable pub hex_digit : ℕ → ℕ
hex_digit d = if leb d 9 then b'0' + d else b'a' + (d - 10)

-- `%.2x` of a byte.
unfoldable pub hex2 : ℕ → Text → Text
hex2 b rest = hex_digit (b / 16) ∷ hex_digit (b % 16) ∷ rest

unfoldable pub unix_text : ℕ → EthAddr → Text
unix_text sep m =
    hex2 m0 (sep ∷ hex2 m1 (sep ∷ hex2 m2 (sep ∷ hex2 m3 (sep ∷ hex2 m4 (sep ∷ hex2 m5 [])))))
  where
    open m use {m0, m1, m2, m3, m4, m5}

-- `snprintf` keeps `bufsize - 1` bytes and the terminator.
unfoldable pub format_mac : EthAddr → ℕ → Text
unfolding unix_text hex2 hex_digit
format_mac mac bufsize = take (bufsize - 1) (unix_text b':' mac)

-- The notations of the comments in `is_mac_addr`: unix, windows and cisco.
pub data Style : Type 0 where
  unix windows cisco : Style

unfoldable pub written : Style → EthAddr → Text
unfolding unix_text
written unix m = unix_text b':' m
written windows m = unix_text b'-' m
written cisco m =
    hex2 m.m0 (hex2 m.m1 (b'.' ∷ hex2 m.m2 (hex2 m.m3 (b'.' ∷ hex2 m.m4 (hex2 m.m5 [])))))
