-- ===== src/Tests/Tagged.antt =====
-- A packet with a VLAN tag, for `pingip_recv`.
use arping.Prelude.{◌<◌, ◌≡◌, ◌⊎◌, refl, [], ◌∷◌, some, pos, arith, All}
use arping.Mac.{EthAddr}
use arping.Host.Order.{Endian, Packet}
use arping.State.{Globals, timed, clock_time}
use arping.Recv.{load_eth}
use arping.Recv.Ip.{pingip_recv}
use arping.Recv.Ip.Outcome.{Taken, Ignored}
use arping.Recv.Ip.Fields.{IsArp}
use arping.Recv.Ip.Tagged.{pingip_recv-tagged}
use arping.Tests.Packets.{header_of, now, asked}

-- A reply from 10.0.0.7 with the tag 5.
abbrev tagged_packet : Packet
tagged_packet =
    0 ∷ 0 ∷ 0 ∷ 0 ∷ 0 ∷ 0 ∷ 0 ∷ 0 ∷ 0 ∷ 0 ∷ 0 ∷ 0 ∷ 0 ∷ 0 ∷ 0 ∷ 0 ∷ 0 ∷ 0 ∷ 0 ∷ 0 ∷ 0 ∷ 0 ∷ 2 ∷ 0
    ∷ 0 ∷ 0 ∷ 0 ∷ 1 ∷ 2 ∷ 0 ∷ 0 ∷ 0 ∷ 0 ∷ 9 ∷ 129 ∷ 0 ∷ 0 ∷ 5 ∷ 8 ∷ 6 ∷ 0 ∷ 1 ∷ 8 ∷ 0 ∷ 6 ∷ 4 ∷ 0
    ∷ 2 ∷ 2 ∷ 0 ∷ 0 ∷ 0 ∷ 0 ∷ 9 ∷ 10 ∷ 0 ∷ 0 ∷ 7 ∷ []

abbrev asked_tagged : Globals
asked_tagged = record asked { vlan_tag = pos 5 }

tagged_bytes : All (λ b. b < 256) tagged_packet
tagged_bytes = ground arith

pingip_recv-tagged_example :
    (IsArp Endian.little asked_tagged tagged_packet 40 6
      × ((mac : EthAddr) × (load_eth tagged_packet 28 ≡ some mac)
          × Taken
              (record { len = 58; mac = mac; ip = asked.dstip; arrival = clock_time now })
              (timed now asked_tagged)
              (pingip_recv Endian.little now (header_of tagged_packet) tagged_packet asked_tagged)))
    ⊎ ((¬ IsArp Endian.little asked_tagged tagged_packet 40 6)
        × Ignored
            (timed now asked_tagged)
            (pingip_recv Endian.little now (header_of tagged_packet) tagged_packet asked_tagged))
pingip_recv-tagged_example =
    pingip_recv-tagged Endian.little now (header_of tagged_packet) tagged_packet asked_tagged 6 refl
      (omega arith) refl (omega arith) tagged_bytes
