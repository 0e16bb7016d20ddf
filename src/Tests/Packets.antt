-- ===== src/Tests/Packets.antt =====
-- Packets for the two handlers.
use arping.Prelude.{
  ℕ, ◌+◌, ◌*◌, ◌<◌, ◌≡◌, ◌↔◌, refl, true, false, List, [], ◌∷◌, ◌++◌, some, none, arith, length,
  All,
}
use arping.Mac.{EthAddr}
use arping.Host.Order.{Endian, Packet, word32}
use arping.Host.Clock.{Reading}
use arping.State.{Globals, initial, timed, clock_time}
use arping.Stats.Summary.{Summarises, stats_after, stats_after-Summarises}
use arping.Recv.{PktHdr, load_eth}
use arping.Recv.Accept.{Report}
use arping.Recv.Accept.Duplicates.{replies_after, Differ, replies_after-dupfound}
use arping.Recv.Ip.{pingip_recv}
use arping.Recv.Ip.Outcome.{Taken, Ignored}
use arping.Recv.Ip.Fields.{IsReply}
use arping.Recv.Ip.Reply.{pingip_recv-IsReply, pingip_recv-other}
use arping.Recv.Ip.Short.{IsReplyHeader, pingip_recv-short}

abbrev mac : EthAddr
mac = record { m0 = 2; m1 = 0; m2 = 0; m3 = 0; m4 = 0; m5 = 9 }

abbrev other_mac : EthAddr
other_mac = record { m0 = 2; m1 = 0; m2 = 0; m3 = 0; m4 = 0; m5 = 8 }

-- The 22 bytes, and the Ethernet header with the source `mac`.
abbrev pub front : Packet
front =
    0 ∷ 0 ∷ 0 ∷ 0 ∷ 0 ∷ 0 ∷ 0 ∷ 0 ∷ 0 ∷ 0 ∷ 0 ∷ 0 ∷ 0 ∷ 0 ∷ 0 ∷ 0 ∷ 0 ∷ 0 ∷ 0 ∷ 0 ∷ 0 ∷ 0 ∷ 2 ∷ 0
    ∷ 0 ∷ 0 ∷ 0 ∷ 1 ∷ 2 ∷ 0 ∷ 0 ∷ 0 ∷ 0 ∷ 9 ∷ 8 ∷ 6 ∷ []

-- An ARP packet with this operation, from 10.0.0.7, without the target's part.
abbrev pub arp_packet : ℕ → Packet
arp_packet op =
    front ++ (0 ∷ 1 ∷ 8 ∷ 0 ∷ 6 ∷ 4 ∷ 0 ∷ op ∷ 2 ∷ 0 ∷ 0 ∷ 0 ∷ 0 ∷ 9 ∷ 10 ∷ 0 ∷ 0 ∷ 7 ∷ [])

abbrev cut_packet : Packet
cut_packet = front ++ (0 ∷ 1 ∷ 8 ∷ 0 ∷ 6 ∷ 4 ∷ 0 ∷ 2 ∷ 2 ∷ 0 ∷ [])

abbrev pub header_of : Packet → PktHdr
header_of p = record { caplen = length p; len = length p }

abbrev pub now : Reading
now = record { failed = false; sec = 100; usec = 5 }

-- Asked for 10.0.0.7.
abbrev pub asked : Globals
asked = record initial { dstip = 10 + 16777216 * 7 }

pub small_bytes : (op : ℕ) → op < 256 → All (λ b. b < 256) (arp_packet op)
small_bytes op h = ground arith

arp-IsReply : IsReply Endian.little asked (arp_packet 2)
unfolding word32
arp-IsReply = record {
  hrd = (refl, refl);
  pro = (refl, refl);
  hln = refl;
  pln = refl;
  op = (refl, refl);
  sender = λ h. cc;
  ip = refl;
}

request-not_IsReply : ¬ IsReply Endian.little asked (arp_packet 1)
request-not_IsReply r = ground (arith, r.op.1)

pingip_recv-IsReply_example :
    (m : EthAddr) × (load_eth (arp_packet 2) 28 ≡ some m)
    × Taken
        (record { len = 54; mac = m; ip = asked.dstip; arrival = clock_time now })
        (timed now asked)
        (pingip_recv Endian.little now (header_of (arp_packet 2)) (arp_packet 2) asked)
pingip_recv-IsReply_example =
    pingip_recv-IsReply Endian.little now (header_of (arp_packet 2)) (arp_packet 2) asked refl refl
      (omega arith) (small_bytes 2 (omega arith)) arp-IsReply

pingip_recv-other_example :
    Ignored
      (timed now asked)
      (pingip_recv Endian.little now (header_of (arp_packet 1)) (arp_packet 1) asked)
pingip_recv-other_example =
    pingip_recv-other Endian.little now (header_of (arp_packet 1)) (arp_packet 1) asked refl refl
      (omega arith) (small_bytes 1 (omega arith)) request-not_IsReply

cut_header : IsReplyHeader cut_packet
cut_header = record {
  hrd = (refl, refl);
  pro = (refl, refl);
  hln = refl;
  pln = refl;
  op = (refl, refl);
}

pingip_recv-short_example :
    pingip_recv Endian.big now (header_of cut_packet) cut_packet asked ≡ none
pingip_recv-short_example =
    pingip_recv-short Endian.big now (header_of cut_packet) cut_packet asked refl refl refl
      (omega arith) (omega arith) cut_header

-- An ICMP packet of this type, behind 22 bytes and an IPv4 header.
abbrev pub icmp_packet : ℕ → Packet
icmp_packet type = front ++ (0 ∷ 1 ∷ 8 ∷ 0 ∷ 6 ∷ 4 ∷ type ∷ 0 ∷ 2 ∷ 0 ∷ 0 ∷ 0 ∷ 0 ∷ 9 ∷ [])

abbrev report : EthAddr → Report
report m = record { len = 60; mac = m; ip = 7; arrival = clock_time now }

-- The first and the last of these are from the same sender, the one between is not.
abbrev three : List Report
three = report mac ∷ report other_mac ∷ report mac ∷ []

replies_after-dupfound_example :
    ((replies_after initial three).numrecvd ≡ 3)
    × (((replies_after initial three).dupfound ≡ true) ↔ Differ (mac ∷ other_mac ∷ mac ∷ []))
replies_after-dupfound_example = replies_after-dupfound initial three refl refl (omega arith)

stats_after-Summarises_example : Summarises (stats_after (3 ∷ 9 ∷ [])) (3 ∷ 9 ∷ [])
stats_after-Summarises_example = stats_after-Summarises (3 ∷ 9 ∷ [])
