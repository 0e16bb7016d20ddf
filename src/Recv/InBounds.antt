-- ===== src/Recv/InBounds.antt =====
-- Which bytes the handlers read, whatever a packet holds: where these were captured, no handler reads behind
-- them, and the VLAN tag stays.
use arping.Prelude.{
  ℤ, ℕ, ◌+◌, ◌≤◌, ◌<◌, ◌≡◌, ◌≢◌, inl, inr, refl, Option, none, some, true, false, arith, length,
  ◌==◌, ◌-ℤ◌, get_elem?_total, Bool-cases,
}
use arping.Host.Order.{Endian, Packet, word16, load8, load16}
use arping.State.{Globals, note, getclock, clock_time}
use arping.Recv.{PktHdr}
use arping.Stats.{update_stats}
use arping.Mac.{EthAddr}
use arping.Host.Clock.{Timespec, Reading, timespec2dbl}
use arping.Recv.Accept.{accept_ip, remember, count_reply}
use arping.Recv.Ip.{check_ip, check_sender, check_fields, find_arp, pingip_recv, tagged}
use arping.Recv.Ip.Fields.{load_eth_total}
use arping.Recv.Echo.{load32_total, shown_echo_total, pingmac_recv}

-- 54 bytes or more; and with a VLAN tag, the protocol address behind a hardware address of the length
-- that the packet claims.
pub record IsReadable (tag : ℤ) (packet : Packet) : Type 0 where
  pub long : 54 ≤ length packet
  pub behind_tag :
      tagged tag ≡ true → (hln : ℕ) → load8 packet 44 ≡ some hln → 52 + hln ≤ length packet

load16_total :
    (e : Endian) (packet : Packet) (i : ℕ)
    → i + 1 < length packet
    → (v : ℕ) × (load16 e packet i ≡ some v)
load16_total e packet i h =
    let (a, pa) = get_elem?_total packet i (omega arith) in
    let (b, pb) = get_elem?_total packet (i + 1) (omega arith) in (word16 e a b, rw (pa, pb) refl)

-- The handler has returned, and the VLAN tag is the same then.
abbrev Sound : Globals → Option Globals → Type 0
Sound g x = (x ≢ none) × ((g' : Globals) → x ≡ some g' → g'.vlan_tag ≡ g.vlan_tag)

abbrev pub Survives : Globals → Option Globals → Type 0
Survives g x = (g' : Globals) × (x ≡ some g') × (g'.vlan_tag ≡ g.vlan_tag)

survives : (g : Globals) (x : Option Globals) → Sound g x → Survives g x
survives g none s = absurd (s.0 refl)
survives g (some g') s = (g', refl, s.1 g' refl)

accept_ip-tag :
    (len : ℕ) (mac : EthAddr) (ip : ℕ) (arrival : Timespec) (g : Globals)
    → (accept_ip len mac ip arrival g).vlan_tag ≡ g.vlan_tag
unfolding accept_ip remember count_reply update_stats
accept_ip-tag len mac ip arrival g = ground arith

module _ (e : Endian) (h : PktHdr) (packet : Packet) (arrival : Timespec) (g : Globals)
    (long : 54 ≤ length packet) where
  module _ (harp hln : ℕ) (at : load8 packet (harp + 4) ≡ some hln)
      (room : harp + hln + 12 ≤ length packet) where
    check_ip-Sound : Sound g (check_ip e h packet arrival harp g)
    unfolding check_ip
    check_ip-Sound =
        let (ip, p) = load32_total e packet (harp + hln + 8) (omega (arith, room)) in
        let (mac, m) = load_eth_total packet 28 (omega (arith, long)) in
        let tag =
          accept_ip-tag h.len mac ip arrival (note g 3 "arping: ... for the right IPv4 address!") in
        (λ q. ground (arith, p, m), λ g' q. ground (arith, p, m, tag))

module _ (e : Endian) (h : PktHdr) (packet : Packet) (arrival : Timespec)
    (long : 54 ≤ length packet) (harp hln : ℕ) (at : load8 packet (harp + 4) ≡ some hln)
    (room : harp + hln + 12 ≤ length packet) (header : harp + 14 ≤ length packet) where
  check_sender-Sound : (g : Globals) → Sound g (check_sender e h packet arrival harp g)
  unfolding check_sender
  check_sender-Sound g =
      let (sender, p) = load_eth_total packet (harp + 8) (omega (arith, header)) in
      let next =
        check_ip-Sound e h packet arrival (note g 3 "arping: ... sent by acceptable host") long harp
          hln at room in
      (λ q. ground (arith, p, next.0), λ g' q. ground (arith, p, next.1 g'))

  check_fields-Sound : (g : Globals) → Sound g (check_fields e h packet arrival harp g)
  unfolding check_fields
  check_fields-Sound g =
      let (op, p) = load16_total e packet (harp + 6) (omega (arith, header)) in
      let (pro, p1) = load16_total e packet (harp + 2) (omega (arith, header)) in
      let (hrd, p2) = load16_total e packet harp (omega (arith, header)) in
      let g1 = note g 3 "arping: ... packet is ARP reply" in
      let g2 = note g1 3 "arping: ... from IPv4 address" in
      let next = check_sender-Sound (note g2 3 "arping: ... to Ethernet address") in
      (λ q. ground (arith, p, p1, p2, next.0), λ g' q. ground (arith, p, p1, p2, next.1 g'))

module _ (e : Endian) (h : PktHdr) (packet : Packet) (arrival : Timespec) (g : Globals)
    (r : IsReadable g.vlan_tag packet) where
  behind_tag : tagged g.vlan_tag ≡ true → Sound g (find_arp e h packet arrival g)
  unfolding find_arp
  behind_tag tag =
      let (hln, p) = get_elem?_total packet 44 (omega (arith, r.long)) in
      let next =
        check_fields-Sound e h packet arrival r.long 40 hln p
          (omega (arith, r.behind_tag tag hln p)) (omega (arith, r.long)) g in
      rw tag next

  untagged : tagged g.vlan_tag ≡ false → Sound g (find_arp e h packet arrival g)
  unfolding find_arp
  untagged none_set =
      let (hln, p) = get_elem?_total packet 40 (omega (arith, r.long)) in
      let (pln, p1) = get_elem?_total packet 41 (omega (arith, r.long)) in
      elim (Bool-cases (hln == 6)) [
        | inr other ↦ (λ q. ground (arith, p), λ g' q. ground (arith, p))
        | inl six ↦
            let is_6 : hln ≡ 6 = ground arith in
            let next =
              check_fields-Sound e h packet arrival r.long 36 hln p (omega (arith, r.long, is_6))
                (omega (arith, r.long)) g in
            (λ q. ground (arith, p, p1, next.0), λ g' q. ground (arith, p, p1, next.1 g'))
      ]

module _ (e : Endian) (r : Reading) (h : PktHdr) (packet : Packet) (g : Globals)
    (readable : IsReadable g.vlan_tag packet) where
  -- With any VLAN tag, or none.
  pub pingip_recv-Survives : Survives g (pingip_recv e r h packet g)
  unfolding pingip_recv getclock
  pingip_recv-Survives =
      let started = getclock r (note g 2 "arping: received response for IP ping") in
      let sound : Sound started.1 (find_arp e h packet started.0 started.1) =
        elim (Bool-cases (tagged started.1.vlan_tag)) [
          | inl tag ↦ behind_tag e h packet started.0 started.1 readable tag
          | inr none_set ↦ untagged e h packet started.0 started.1 readable none_set
        ] in
      survives g _ sound

  pub pingmac_recv-Survives : Survives g (pingmac_recv e r h packet g)
  unfolding pingmac_recv getclock update_stats count_reply
  pingmac_recv-Survives =
      let started = (getclock r (note g 2 "arping: received response for mac ping")).1 in
      let measured =
        update_stats started (timespec2dbl (clock_time r) -ℤ timespec2dbl started.lastpacketsent) in
      let (o, shown) =
        shown_echo_total e h.len packet (clock_time r) measured (omega (arith, readable.long))
          g.display in
      let (t, at) = get_elem?_total packet 42 (omega (arith, readable.long)) in
      survives g _ (λ q. ground (arith, at, shown), λ g' q. ground (arith, at, shown))
