-- ===== src/Recv.antt =====
-- The packet handlers that `pcap_dispatch` calls: `pingip_recv` and `pingmac_recv` of arping.c.
-- `none` is a read behind the captured bytes.
pub mod Accept
pub mod Ip
pub mod Echo
pub mod InBounds
use arping.Prelude.{ℕ, ◌+◌, Option, none, some}
use arping.Mac.{EthAddr}
use arping.Host.Order.{Packet, load8, ◌>>=◌}

-- The fields of `struct pcap_pkthdr` that the handlers read.
pub record PktHdr : Type 0 where
  pub caplen : ℕ
  pub len : ℕ

-- 22 bytes of a header in front of the Ethernet frame are skipped.
abbrev pub shift_ether : ℕ
shift_ether = 22

-- LIBNET_ETH_H, LIBNET_802_1Q_H, LIBNET_ARP_H, LIBNET_IPV4_H and ETH_ALEN.
abbrev pub eth_h : ℕ
eth_h = 14

abbrev pub vlan_h : ℕ
vlan_h = 18

abbrev pub arp_h : ℕ
arp_h = 8

abbrev pub ipv4_h : ℕ
ipv4_h = 20

abbrev pub eth_alen : ℕ
eth_alen = 6

-- The six bytes of an address in a packet.
abbrev pub load_eth : Packet → ℕ → Option EthAddr
load_eth p i = do
  a ← load8 p i
  b ← load8 p (i + 1)
  c ← load8 p (i + 2)
  d ← load8 p (i + 3)
  e ← load8 p (i + 4)
  f ← load8 p (i + 5)
  some (record { m0 = a; m1 = b; m2 = c; m3 = d; m4 = e; m5 = f })
