-- ===== src/Recv/Ip/Reply.antt =====
-- What `pingip_recv` does with a captured packet: it counts the replies, and those alone.
use arping.Recv.Accept.{accept_ip}
use arping.Prelude.{
  ◌∙◌, ap, ℕ, ◌≤◌, ◌<◌, ◌≡◌, refl, Bool, true, false, some, ◌==◌, arith, Bool-cases, inl, inr,
  length, All, get_elem?_total,
}
use arping.Mac.{EthAddr}
use arping.Host.Order.{Endian, Packet, word32, load8}
use arping.Host.Clock.{Timespec, Reading}
use arping.State.{Globals, note, getclock, clock_time, timed}
use arping.Recv.{PktHdr, load_eth}
use arping.Recv.Ip.{tagged, check_fields, find_arp, pingip_recv}
use arping.Recv.Ip.Outcome.{Taken, Ignored, Outcome, Frame, report, check_fields-Outcome}
use arping.Recv.Ip.Fields.{IsReply, Frame_of, passes, passes-IsReply, IsReply-passes}

module _ (e : Endian) (h : PktHdr) (packet : Packet) (arrival : Timespec) (g : Globals)
    (untagged : tagged g.vlan_tag ≡ false) (captured : h.caplen ≡ length packet)
    (long : 54 ≤ length packet) (bytes : All (λ b. b < 256) packet) where
  abbrev frame : Frame packet 36 6
  frame = Frame_of packet 36 6 (omega (arith, long)) (omega (arith, long)) (omega (arith, long))

  -- A hardware address of another length.
  find_arp-hln :
      (n : ℕ) → load8 packet 40 ≡ some n → (n == 6) ≡ false → find_arp e h packet arrival g ≡ some g
  unfolding find_arp
  find_arp-hln n at other = ground arith

  -- A protocol address of another length.
  find_arp-pln :
      (n : ℕ)
      → load8 packet 40 ≡ some 6
      → load8 packet 41 ≡ some n
      → (n == 4) ≡ false
      → find_arp e h packet arrival g ≡ some g
  unfolding find_arp
  find_arp-pln n six at other = ground arith

  find_arp-fields :
      load8 packet 40 ≡ some 6
      → load8 packet 41 ≡ some 4
      → find_arp e h packet arrival g ≡ check_fields e h packet arrival 36 g
  unfolding find_arp
  find_arp-fields six four = ground arith

  Verdict : Type 0
  Verdict =
      (IsReply e g packet
        → (mac : EthAddr) × (load_eth packet 28 ≡ some mac)
          × Taken (record { len = h.len; mac = mac; ip = g.dstip; arrival = arrival }) g
              (find_arp e h packet arrival g))
      × (¬ IsReply e g packet → Ignored g (find_arp e h packet arrival g))

  verdict_of :
      (six : load8 packet 40 ≡ some 6)
      → load8 packet 41 ≡ some 4
      → (b : Bool) → passes e g frame ≡ b
      → Outcome
          (report e h packet arrival 36 6 frame six)
          g
          b
          (check_fields e h packet arrival 36 g)
      → Verdict
  unfolding Verdict
  verdict_of six four true holds (o, taken) = (
    λ r. (frame.mac, frame.at_mac, (o, found r)),
    λ wrong. absurd (wrong (passes-IsReply e g packet frame bytes six four holds)),
  )
    where
      asked : IsReply e g packet → word32 e frame.ip0 frame.ip1 frame.ip2 frame.ip3 ≡ g.dstip
      asked r = ground (arith, r.ip, frame.at_ip0, frame.at_ip1, frame.at_ip2, frame.at_ip3)

      found :
          IsReply e g packet
          → find_arp e h packet arrival g
            ≡ some (accept_ip h.len frame.mac g.dstip arrival (record g { out = o }))
      found r =
          find_arp-fields six four
          ∙ taken
          ∙ ap (λ ip. some (accept_ip h.len frame.mac ip arrival (record g { out = o }))) (asked r)
  verdict_of six four false drops (o, ignored) = (
    λ r. let holds = IsReply-passes e g packet frame bytes r in cc,
    λ _. (o, find_arp-fields six four ∙ ignored),
  )

  not_reply : ¬ IsReply e g packet → find_arp e h packet arrival g ≡ some g → Verdict
  unfolding Verdict
  not_reply wrong same = (λ r. absurd (wrong r), λ _. (g.out, same))

  find_arp-Verdict : Verdict
  find_arp-Verdict =
      let (a, at_a) = get_elem?_total packet 40 (omega arith) in
      let (b, at_b) = get_elem?_total packet 41 (omega arith) in
      elim (Bool-cases (a == 6)) [
        | inr other ↦ not_reply (λ r. ground (arith, r.hln)) (find_arp-hln a at_a other)
        | inl six ↦ elim (Bool-cases (b == 4)) [
          | inr other ↦
              not_reply (λ r. ground (arith, r.pln)) (find_arp-pln b (ground arith) at_b other)
          | inl four ↦
              let at_six : load8 packet 40 ≡ some 6 = ground arith in
              verdict_of at_six (ground arith) (passes e g frame) refl
                (check_fields-Outcome e h packet arrival 36 6 frame at_six g)
        ]
      ]

pingip_recv-Verdict :
    (e : Endian) (r : Reading) (h : PktHdr) (packet : Packet) (g : Globals)
    → tagged g.vlan_tag ≡ false
    → h.caplen ≡ length packet
    → 54 ≤ length packet
    → All (λ b. b < 256) packet
    → (IsReply e g packet
        → (mac : EthAddr) × (load_eth packet 28 ≡ some mac)
          × Taken
              (record { len = h.len; mac = mac; ip = g.dstip; arrival = clock_time r })
              (timed r g)
              (pingip_recv e r h packet g))
      × (¬ IsReply e g packet → Ignored (timed r g) (pingip_recv e r h packet g))
unfolding pingip_recv getclock Verdict
pingip_recv-Verdict e r h packet g untagged captured long bytes =
    (λ reply. verdict.0 (same_reply reply), λ wrong. verdict.1 (λ reply. wrong (reply_same reply)))
  where
    noted_g : Globals
    noted_g = (getclock r (note g 2 "arping: received response for IP ping")).1

    verdict : Verdict e h packet (clock_time r) noted_g untagged captured long bytes
    verdict = find_arp-Verdict e h packet (clock_time r) noted_g untagged captured long bytes

    same_reply : IsReply e g packet → IsReply e noted_g packet
    same_reply i = record {
      hrd = i.hrd;
      pro = i.pro;
      hln = i.hln;
      pln = i.pln;
      op = i.op;
      sender = i.sender;
      ip = i.ip;
    }

    reply_same : IsReply e noted_g packet → IsReply e g packet
    reply_same i = record {
      hrd = i.hrd;
      pro = i.pro;
      hln = i.hln;
      pln = i.pln;
      op = i.op;
      sender = i.sender;
      ip = i.ip;
    }

-- Without a VLAN tag, an ARP reply for the address asked for, of which `caplen`, 54 or more, bytes
-- were captured, is counted, without a read behind what was captured; what is recorded is the
-- packet's length, its Ethernet source, the address and the arrival time. (A failed clock ends the
-- program too.)
pub pingip_recv-IsReply :
    (e : Endian) (r : Reading) (h : PktHdr) (packet : Packet) (g : Globals)
    → tagged g.vlan_tag ≡ false
    → h.caplen ≡ length packet
    → 54 ≤ length packet
    → All (λ b. b < 256) packet
    → IsReply e g packet
    → (mac : EthAddr) × (load_eth packet 28 ≡ some mac)
      × Taken
          (record { len = h.len; mac = mac; ip = g.dstip; arrival = clock_time r })
          (timed r g)
          (pingip_recv e r h packet g)
pingip_recv-IsReply e r h packet g untagged captured long bytes =
    (pingip_recv-Verdict e r h packet g untagged captured long bytes).0

-- Without a VLAN tag, a packet that is no such reply, of which `caplen`, 54 or more, bytes were
-- captured, changes nothing but what `pingip_recv` prints, again without a read behind what was
-- captured. (A failed clock ends the program.)
pub pingip_recv-other :
    (e : Endian) (r : Reading) (h : PktHdr) (packet : Packet) (g : Globals)
    → tagged g.vlan_tag ≡ false
    → h.caplen ≡ length packet
    → 54 ≤ length packet
    → All (λ b. b < 256) packet
    → ¬ IsReply e g packet
    → Ignored (timed r g) (pingip_recv e r h packet g)
pingip_recv-other e r h packet g untagged captured long bytes =
    (pingip_recv-Verdict e r h packet g untagged captured long bytes).1
