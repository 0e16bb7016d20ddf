-- ===== src/Mac.antt =====
-- Ethernet addresses as text: `is_mac_addr`, `get_mac_addr` and `format_mac` of arping.c, with
-- the part of `sscanf` that the formats of `get_mac_addr` use.
pub mod Scan
pub mod Print
pub mod Digits
pub mod Accept
pub mod Shape
pub mod RoundTrip
use arping.Prelude.{
  ◌≡◌, ◌↔◌, arith, refl, ℕ, ◌+◌, ◌*◌, ◌-◌, ◌%◌, ◌<◌, Bool, true, [], ◌∷◌, ◌&&◌, ◌||◌, ◌==◌, leb,
  length, if◌then◌else◌, Text, strchr,
}

-- `uint8_t[ETH_ALEN]`.
pub record EthAddr : Type 0 where
  pub m0 : ℕ
  pub m1 : ℕ
  pub m2 : ℕ
  pub m3 : ℕ
  pub m4 : ℕ
  pub m5 : ℕ

-- Every byte is below 256.
pub record IsEth (m : EthAddr) : Type 0 where
  pub b0 : m.m0 < 256
  pub b1 : m.m1 < 256
  pub b2 : m.m2 < 256
  pub b3 : m.m3 < 256
  pub b4 : m.m4 < 256
  pub b5 : m.m5 < 256

-- `isxdigit` on an ASCII byte.
unfoldable pub is_xdigit : ℕ → Bool
is_xdigit c = (leb b'0' c && leb c b'9') || (leb b'A' c && leb c b'F') || (leb b'a' c && leb c b'f')

-- The loop over `p` from index `c`: `sep` where `c % period == period - 1`, a digit elsewhere.
-- `false` is the jump to `checkcolon`.
unfoldable pub matches_from : ℕ → ℕ → ℕ → Text → Bool
matches_from period sep c [] = true
matches_from period sep c (x ∷ p) =
    (if c % period == period - 1 then sep == x else is_xdigit x)
    && matches_from period sep (c + 1) p

unfoldable pub is_mac_addr : Text → Bool
is_mac_addr p =
    let check_colon = strchr p b':' in
    if length p == 3 * 5 - 1
    then (if matches_from 5 b'.' 0 p then true else check_colon)
    else if length p == 6 * 3 - 1
    then (if matches_from 3 b'-' 0 p then true else check_colon)
    else check_colon

-- `memcmp(a, b, ETH_ALEN) == 0`.
unfoldable pub eth_eq : EthAddr → EthAddr → Bool
eth_eq a b =
    a.m0 == b.m0 && a.m1 == b.m1 && a.m2 == b.m2 && a.m3 == b.m3 && a.m4 == b.m4 && a.m5 == b.m5

pub eth_eq_iff : (a b : EthAddr) → (eth_eq a b ≡ true) ↔ (a ≡ b)
unfolding eth_eq
eth_eq_iff a b = ground arith
