-- ===== src/Tests/Text.antt =====
-- Addresses as text.
use arping.Prelude.{◌≡◌, ◌↔◌, ◌⊎◌, true, some, arith, codes, Text}
use mathlib.Core.List.{Memᴰ}
use arping.Mac.{EthAddr, IsEth, is_mac_addr}
use arping.Mac.Scan.{get_mac_addr}
use arping.Mac.Print.{format_mac, written, cisco}
use arping.Mac.RoundTrip.{get_mac_addr-written}
use arping.Mac.Accept.{format_mac_reads}
use arping.Mac.Shape.{Groups, is_mac_addr_iff}

abbrev mac : EthAddr
mac = record { m0 = 0; m1 = 27; m2 = 33; m3 = 160; m4 = 255; m5 = 9 }

mac-IsEth : IsEth mac
mac-IsEth = record {
  b0 = omega arith;
  b1 = omega arith;
  b2 = omega arith;
  b3 = omega arith;
  b4 = omega arith;
  b5 = omega arith;
}

abbrev cisco_text : Text
cisco_text = codes "001b.21a0.ff09"

get_mac_addr-written_example : get_mac_addr (written cisco mac) ≡ some mac
get_mac_addr-written_example = get_mac_addr-written cisco mac mac-IsEth

format_mac_reads_example :
    (is_mac_addr (format_mac mac 128) ≡ true) × (get_mac_addr (format_mac mac 128) ≡ some mac)
format_mac_reads_example = format_mac_reads mac 128 mac-IsEth (omega arith)

is_mac_addr_iff_example :
    (is_mac_addr cisco_text ≡ true)
    ↔ (Groups b'.' 4 4 2 cisco_text ⊎ Groups b'-' 2 2 5 cisco_text ⊎ Memᴰ b':' cisco_text)
is_mac_addr_iff_example = is_mac_addr_iff cisco_text
