-- ===== src/Mac/Accept.antt =====
-- `is_mac_addr` against what `format_mac` and the other two notations write.
use arping.Prelude.{
  ℕ, suc, ◌-◌, ◌/◌, ◌%◌, ◌≤◌, ◌<◌, ◌≡◌, refl, true, inl, inr, some, arith, take_all, Text,
}
use mathlib.Core.List.{Memᴰ}
use arping.Mac.{EthAddr, IsEth, is_mac_addr}
use arping.Mac.Digits.{hex_digit-IsDigit}
use arping.Mac.Print.{hex2, unix_text, Style, unix, windows, cisco, written, format_mac}
use arping.Mac.RoundTrip.{get_mac_addr-written}
use arping.Mac.Scan.{get_mac_addr}
use arping.Mac.Shape.{Groups, done, digit, next, is_mac_addr_iff}

Groups-hex2 :
    {sep w : ℕ} (b : ℕ) {k n : ℕ} {s : Text}
    → b < 256
    → Groups sep w k n s
    → Groups sep w (suc (suc k)) n (hex2 b s)
unfolding hex2
Groups-hex2 b h g =
    digit (hex_digit-IsDigit (b / 16) (omega arith)).digit
      (digit (hex_digit-IsDigit (b % 16) (omega arith)).digit g)

-- `is_mac_addr` accepts every address of six bytes that is written in one of the three notations.
pub is_mac_addr-written :
    (style : Style) (m : EthAddr) → IsEth m → is_mac_addr (written style m) ≡ true
unfolding written unix_text
is_mac_addr-written unix m h = (is_mac_addr_iff _).1 (inr (inr colon))
  where
    colon : Memᴰ b':' (unix_text b':' m)
    colon = unfold hex2 in Memᴰ.tail (Memᴰ.tail (Memᴰ.head refl))
is_mac_addr-written windows m h = (is_mac_addr_iff _).1 (inr (inl groups))
  where
    groups : Groups b'-' 2 2 5 (unix_text b'-' m)
    groups = Groups-hex2 m.m0 h.b0 (
        next refl (
          Groups-hex2 m.m1 h.b1 (
            next refl (
              Groups-hex2 m.m2 h.b2 (
                next refl (
                  Groups-hex2 m.m3 h.b3 (
                    next refl
                      (Groups-hex2 m.m4 h.b4 (next refl (Groups-hex2 m.m5 h.b5 done))))))))))
is_mac_addr-written cisco m h = (is_mac_addr_iff _).1 (inl groups)
  where
    groups : Groups b'.' 4 4 2 (written cisco m)
    groups = Groups-hex2 m.m0 h.b0 (
        Groups-hex2 m.m1 h.b1 (
          next refl (
            Groups-hex2 m.m2 h.b2 (
              Groups-hex2 m.m3 h.b3
                (next refl (Groups-hex2 m.m4 h.b4 (Groups-hex2 m.m5 h.b5 done)))))))

-- What `format_mac` prints of six bytes into a buffer of 18 bytes or more, the terminator included,
-- `is_mac_addr` accepts and `get_mac_addr` reads back.
pub format_mac_reads :
    (m : EthAddr) (bufsize : ℕ)
    → IsEth m
    → 18 ≤ bufsize
    → (is_mac_addr (format_mac m bufsize) ≡ true) × (get_mac_addr (format_mac m bufsize) ≡ some m)
format_mac_reads m bufsize h room =
    rw whole (is_mac_addr-written unix m h, get_mac_addr-written unix m h)
  where
    whole : format_mac m bufsize ≡ written unix m
    whole = unfold format_mac written unix_text hex2 in take_all (bufsize - 1) _ (omega arith)
