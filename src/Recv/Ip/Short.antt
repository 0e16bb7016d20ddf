-- ===== src/Recv/Ip/Short.antt =====
-- Packets that pass the test of `caplen`, which leaves out the 22 bytes that are skipped.
use arping.Prelude.{◌≤◌, ◌<◌, ◌≡◌, false, none, some, arith, length, get_elem?-eq-none}
use arping.Host.Order.{Endian, Packet, load8, htons-word16}
use arping.Host.Clock.{Timespec, Reading}
use arping.State.{Globals, getclock, clock_time, note}
use arping.Recv.{PktHdr}
use arping.Recv.Ip.{tagged, check_ip, check_sender, check_fields, find_arp, pingip_recv}

-- The first eight bytes of an ARP reply over Ethernet and IPv4.
pub record IsReplyHeader (packet : Packet) : Type 0 where
  pub hrd : (load8 packet 36 ≡ some 0) × (load8 packet 37 ≡ some 1)
  pub pro : (load8 packet 38 ≡ some 8) × (load8 packet 39 ≡ some 0)
  pub hln : load8 packet 40 ≡ some 6
  pub pln : load8 packet 41 ≡ some 4
  pub op : (load8 packet 42 ≡ some 0) × (load8 packet 43 ≡ some 2)

module _ (e : Endian) (h : PktHdr) (packet : Packet) (arrival : Timespec)
    (short : length packet < 54) (head : IsReplyHeader packet) where
  check_ip-none : (g : Globals) → check_ip e h packet arrival 36 g ≡ none
  unfolding check_ip
  check_ip-none g = ground (arith, get_elem?-eq-none packet 53)

  check_sender-none :
      (g : Globals) → g.addr_must_be_same ≡ false → check_sender e h packet arrival 36 g ≡ none
  unfolding check_sender
  check_sender-none g any = rw any (check_ip-none _)

  check_fields-none :
      (g : Globals) → g.addr_must_be_same ≡ false → check_fields e h packet arrival 36 g ≡ none
  unfolding check_fields
  check_fields-none g any =
      rw
        (
          head.op.0,
          head.op.1,
          htons-word16 e 0 2 (omega arith) (omega arith),
          head.pro.0,
          head.pro.1,
          htons-word16 e 8 0 (omega arith) (omega arith),
          head.hrd.0,
          head.hrd.1,
          htons-word16 e 0 1 (omega arith) (omega arith),
        )
        (check_sender-none _ any)

-- Without a VLAN tag and without `addr_must_be_same`: a packet that starts as an ARP reply, and of
-- which `caplen`, 44 to 53, bytes were captured, passes the test of `caplen`, and `pingip_recv`
-- then reads behind the captured bytes.
pub pingip_recv-short :
    (e : Endian) (r : Reading) (h : PktHdr) (packet : Packet) (g : Globals)
    → tagged g.vlan_tag ≡ false
    → g.addr_must_be_same ≡ false
    → h.caplen ≡ length packet
    → 44 ≤ length packet
    → length packet < 54
    → IsReplyHeader packet
    → pingip_recv e r h packet g ≡ none
unfolding pingip_recv getclock find_arp
pingip_recv-short e r h packet g untagged any captured long short head = ground (
  arith,
  check_fields-none e h packet (clock_time r) short head
      (getclock r (note g 2 "arping: received response for IP ping")).1,
)
