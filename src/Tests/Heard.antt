-- ===== src/Tests/Heard.antt =====
-- Runs in which libpcap delivers two replies and a request, and an echo reply and a request.
use arping.Prelude.{ℕ, ◌<◌, refl, true, false, List, [], ◌∷◌, ◌++◌, negsuc, arith}
use arping.Mac.{EthAddr}
use arping.Host.Order.{Endian, Packet}
use arping.State.{Globals}
use arping.Recv.Ip.Senders.{IsCaptured, Refines}
use arping.Recv.Ip.{pingip_recv}
use arping.Await.{Delivery, ready, Round, ping_recv}
use arping.Await.Hears.{Hears, AllCaptured}
use arping.Await.Handed.{handed_recv}
use arping.Await.Listened.{Listened}
use arping.Await.Senders.{senders_heard, ping_recv-Listened}
use arping.Send.{Block, Sender}
use arping.Run.{Turn, ping_ip, ping_mac, ping_loop}
use arping.Run.Echoes.{IsMacStatus, ping_loop-IsMacStatus}
use arping.Await.Echoes.{echoes_heard}
use arping.Run.Status.{IsStatus}
use arping.Run.Handed.{delivered_in, handed_run}
use arping.Run.Heard.{GlobalsOf}
use arping.Run.Senders.{ping_loop-IsStatus}
use arping.Tests.Packets.{arp_packet, header_of, now, asked, small_bytes, icmp_packet}
use arping.Tests.Runs.{lib, first, turn}

abbrev pub delivery : ℕ → Delivery
delivery op = record { clock = now; header = header_of (arp_packet op); packet = arp_packet op }

pub captured : (op : ℕ) → op < 256 → IsCaptured (header_of (arp_packet op)) (arp_packet op)
captured op small = record { whole = refl; long = omega arith; bytes = small_bytes op small }

abbrev pub heard_round : Round
heard_round = record {
  clock = now;
  signalled = false;
  select = ready (delivery 2 ∷ delivery 1 ∷ delivery 2 ∷ []);
}

abbrev heard_turns : List Turn
heard_turns = turn (heard_round ∷ []) ∷ []

abbrev asking : Sender (List Block)
asking = record first { globals = asked }

all_captured : AllCaptured (delivered_in heard_turns)
all_captured =
    (captured 2 (omega arith), (captured 1 (omega arith), (captured 2 (omega arith), tt)))

ping_loop-IsStatus_example :
    (g : Globals) × (senders : List EthAddr) × GlobalsOf
      (ping_loop (ping_ip lib Endian.little) 3 1000000 (negsuc 999999999) 0 heard_turns asking)
      g
    × Hears
        (senders_heard Endian.little asked)
        (handed_run (ping_ip lib Endian.little) 3 1000000 (negsuc 999999999) 0 heard_turns asking)
        []
        senders
    × IsStatus g senders
ping_loop-IsStatus_example =
    ping_loop-IsStatus lib Endian.little 3 1000000 (negsuc 999999999) heard_turns asking refl refl
      refl all_captured (omega arith)

asked-Refines : Refines asked asked []
asked-Refines = record {
  asks = record { untagged = refl; dstip = refl; dstmac = refl; same = refl; finddup = refl };
  remembers = (refl, refl);
}

ping_recv-Listened_example :
    Listened
      (senders_heard Endian.little asked)
      (handed_recv
        (λ r h p g. pingip_recv Endian.little r h p g)
        1000000
        now
        true
        (heard_round ∷ [])
        asked)
      []
      (ping_recv
        (λ r h p g. pingip_recv Endian.little r h p g)
        1000000
        now
        true
        (heard_round ∷ [])
        asked)
ping_recv-Listened_example =
    ping_recv-Listened Endian.little asked 1000000 now true (heard_round ∷ []) asked [] all_captured
      (omega arith) asked-Refines

-- An echo reply and an echo request, with four bytes behind them.
abbrev padded : ℕ → Packet
padded type = icmp_packet type ++ (0 ∷ 0 ∷ 0 ∷ 0 ∷ [])

abbrev icmp_delivery : ℕ → Delivery
icmp_delivery type = record { clock = now; header = header_of (padded type); packet = padded type }

padded-IsCaptured : (type : ℕ) → type < 256 → IsCaptured (header_of (padded type)) (padded type)
padded-IsCaptured type small = record { whole = refl; long = omega arith; bytes = ground arith }

abbrev echo_turns : List Turn
echo_turns =
    turn (record heard_round { select = ready (icmp_delivery 0 ∷ icmp_delivery 8 ∷ []) } ∷ []) ∷ []

ping_loop-IsMacStatus_example :
    (g : Globals) × (packets : List Packet) × GlobalsOf
      (ping_loop (ping_mac lib Endian.little) 3 1000000 (negsuc 999999999) 0 echo_turns asking)
      g
    × Hears
        (echoes_heard Endian.little asked)
        (handed_run (ping_mac lib Endian.little) 3 1000000 (negsuc 999999999) 0 echo_turns asking)
        []
        packets
    × IsMacStatus g packets
ping_loop-IsMacStatus_example =
    ping_loop-IsMacStatus lib Endian.little 3 1000000 (negsuc 999999999) echo_turns asking refl refl
      (padded-IsCaptured 0 (omega arith), (padded-IsCaptured 8 (omega arith), tt)) (omega arith)
