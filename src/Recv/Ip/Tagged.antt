-- ===== src/Recv/Ip/Tagged.antt =====
-- `pingip_recv` with a VLAN tag. The header in front of the ARP packet is longer by four bytes, and the
-- lengths of the addresses are not tested: the hardware address has the length that the packet claims.
use arping.Prelude.{
  ◌∙◌, ap, ℕ, ◌+◌, ◌≤◌, ◌<◌, ◌≡◌, ◌⊎◌, refl, Bool, true, false, some, arith, inl, inr, length, All,
}
use arping.Mac.{EthAddr}
use arping.Host.Order.{Endian, Packet, word32, load8}
use arping.Host.Clock.{Timespec, Reading}
use arping.State.{Globals, note, getclock, clock_time, timed}
use arping.Recv.{PktHdr, load_eth}
use arping.Recv.Accept.{accept_ip}
use arping.Recv.Ip.{tagged, check_fields, find_arp, pingip_recv}
use arping.Recv.Ip.Outcome.{Taken, Ignored, Outcome, Frame, report, check_fields-Outcome}
use arping.Recv.Ip.Fields.{IsArp, Frame_of, passes, passes-IsArp, IsArp-passes}

module _ (e : Endian) (h : PktHdr) (packet : Packet) (arrival : Timespec) (g : Globals) (hln : ℕ)
    (long : 54 ≤ length packet) (len : load8 packet 44 ≡ some hln) (room : 52 + hln ≤ length packet)
    (bytes : All (λ b. b < 256) packet) where
  abbrev frame : Frame packet 40 hln
  frame = Frame_of packet 40 hln (omega (arith, long)) (omega (arith, long)) (omega (arith, room))

  -- Counted if it is such a reply, and dropped if it is not.
  abbrev Verdict : Type 0
  Verdict =
      (IsArp e g packet 40 hln
        × ((mac : EthAddr) × (load_eth packet 28 ≡ some mac)
            × Taken (record { len = h.len; mac = mac; ip = g.dstip; arrival = arrival }) g
                (check_fields e h packet arrival 40 g)))
      ⊎ ((¬ IsArp e g packet 40 hln) × Ignored g (check_fields e h packet arrival 40 g))

  asked : IsArp e g packet 40 hln → word32 e frame.ip0 frame.ip1 frame.ip2 frame.ip3 ≡ g.dstip
  asked r = ground (arith, r.ip, frame.at_ip0, frame.at_ip1, frame.at_ip2, frame.at_ip3)

  verdict_of :
      (b : Bool)
      → passes e g frame ≡ b
      → Outcome
          (report e h packet arrival 40 hln frame len)
          g
          b
          (check_fields e h packet arrival 40 g)
      → Verdict
  verdict_of true holds (o, taken) =
      let r = passes-IsArp e g packet 40 hln frame bytes holds in
      inl (
        r,
        (
          frame.mac,
          frame.at_mac,
          (
            o,
            taken
                ∙ ap (λ ip. some (accept_ip h.len frame.mac ip arrival (record g { out = o })))
                    (asked r),
          ),
        ),
      )
  verdict_of false drops (o, ignored) =
      inr (λ r. let holds = IsArp-passes e g packet 40 hln frame bytes r in cc, (o, ignored))

  check_fields-Verdict : Verdict
  check_fields-Verdict =
      verdict_of (passes e g frame) refl
        (check_fields-Outcome e h packet arrival 40 hln frame len g)

find_arp-tagged :
    (e : Endian) (h : PktHdr) (packet : Packet) (arrival : Timespec) (g : Globals)
    → tagged g.vlan_tag ≡ true
    → find_arp e h packet arrival g ≡ check_fields e h packet arrival 40 g
unfolding find_arp
find_arp-tagged e h packet arrival g tag = rw tag refl

-- With a VLAN tag, of a packet of which 54 bytes or more were captured, and the protocol address behind a
-- hardware address of the length `hln` that it claims, whatever that is: either it is an ARP reply behind a
-- tagged header, with the address asked for behind an address of that length, and is counted, with its
-- length, its Ethernet source, the address and the arrival time; or it is none, and nothing changes but
-- what is printed. The tag of the packet is not compared. (A failed clock ends the program too.)
pub pingip_recv-tagged :
    (e : Endian) (r : Reading) (h : PktHdr) (packet : Packet) (g : Globals) (hln : ℕ)
    → tagged g.vlan_tag ≡ true
    → 54 ≤ length packet
    → load8 packet 44 ≡ some hln
    → 52 + hln ≤ length packet
    → All (λ b. b < 256) packet
    → (IsArp e g packet 40 hln
        × ((mac : EthAddr) × (load_eth packet 28 ≡ some mac)
            × Taken
                (record { len = h.len; mac = mac; ip = g.dstip; arrival = clock_time r })
                (timed r g)
                (pingip_recv e r h packet g)))
      ⊎ ((¬ IsArp e g packet 40 hln) × Ignored (timed r g) (pingip_recv e r h packet g))
unfolding pingip_recv getclock
pingip_recv-tagged e r h packet g hln tag long len room bytes =
    let noted_g = (getclock r (note g 2 "arping: received response for IP ping")).1 in
    let there = find_arp-tagged e h packet (clock_time r) noted_g tag in
    elim (check_fields-Verdict e h packet (clock_time r) noted_g hln long len room bytes) [
      | inl (i, (mac, at, (o, taken))) ↦ inl (
        record { hrd = i.hrd; pro = i.pro; op = i.op; sender = i.sender; ip = i.ip },
        (mac, at, (o, there ∙ taken)),
      )
      | inr (wrong, (o, ignored)) ↦ inr (
        λ i. wrong (record { hrd = i.hrd; pro = i.pro; op = i.op; sender = i.sender; ip = i.ip }),
        (o, there ∙ ignored),
      )
    ]
