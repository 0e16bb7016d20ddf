-- ===== src/Run/Modes.antt =====
-- What the loop relies on of a sender and a handler, and that both modes have it.
use arping.Prelude.{ℕ, ◌+◌, ◌%◌, ◌≡◌, ap, some, arith}
use arping.Host.Order.{Endian, Packet}
use arping.Host.Clock.{Timespec}
use arping.State.{Globals, uint_mod, clock_time, getclock, note}
use arping.Stats.{update_stats}
use arping.Recv.{PktHdr, shift_ether, eth_h, vlan_h}
use arping.Recv.Accept.{accept_ip, remember, count_reply}
use arping.Recv.Ip.{check_ip, check_sender, check_fields, find_arp, pingip_recv}
use arping.Recv.Echo.{pingmac_recv}
use arping.Send.{Libnet, Sender}
use arping.Send.Counts.{pingip_send_lem, pingmac_send_lem}
use arping.Await.Counts.{Keeps}
use arping.Run.{Turn, Mode, ping_ip, ping_mac}

pub record IsMode {L : Type 0} (mode : Mode L) : Type 0 where
  pub counts :
      (c : ℕ) (t : Turn) (s : Sender L)
      → (mode.send c t s).globals.numsent ≡ (s.globals.numsent + 1) % uint_mod
  pub keeps : Keeps mode.recv

module _ (e : Endian) (h : PktHdr) (p : Packet) (arrival : Timespec) where
  check_ip-numsent :
      (i : ℕ) (g g' : Globals) → check_ip e h p arrival i g ≡ some g' → g'.numsent ≡ g.numsent
  unfolding check_ip accept_ip remember count_reply update_stats
  check_ip-numsent i g g' q = ground arith

  check_sender-numsent :
      (i : ℕ) (g g' : Globals) → check_sender e h p arrival i g ≡ some g' → g'.numsent ≡ g.numsent
  unfolding check_sender
  check_sender-numsent i g g' q =
      let g1 = note g 3 "arping: ... sent by acceptable host" in
      ground (arith, check_ip-numsent i g1 g')

  check_fields-numsent :
      (i : ℕ) (g g' : Globals) → check_fields e h p arrival i g ≡ some g' → g'.numsent ≡ g.numsent
  unfolding check_fields
  check_fields-numsent i g g' q =
      let g1 = note g 3 "arping: ... packet is ARP reply" in
      let g2 = note g1 3 "arping: ... from IPv4 address" in
      ground (arith, check_sender-numsent i (note g2 3 "arping: ... to Ethernet address") g')

  find_arp-numsent : (g g' : Globals) → find_arp e h p arrival g ≡ some g' → g'.numsent ≡ g.numsent
  unfolding find_arp
  find_arp-numsent g g' q = ground (
    arith,
    check_fields-numsent (shift_ether + vlan_h) g g',
    check_fields-numsent (shift_ether + eth_h) g g',
  )

pingip_recv-Keeps : (e : Endian) → Keeps (pingip_recv e)
unfolding pingip_recv getclock
pingip_recv-Keeps e r h p g g' q = find_arp-numsent e h p (clock_time r) _ g' q

pingmac_recv-Keeps : (e : Endian) → Keeps (pingmac_recv e)
unfolding pingmac_recv getclock count_reply update_stats
pingmac_recv-Keeps e r h p g g' q = ground arith

pub ping_ip-IsMode : {L : Type 0} (lib : Libnet L) (e : Endian) → IsMode (ping_ip lib e)
ping_ip-IsMode lib e = record {
  counts = λ c t s. ap (λ g. g.numsent) (pingip_send_lem lib t.before t.after s).1;
  keeps = pingip_recv-Keeps e;
}

pub ping_mac-IsMode : {L : Type 0} (lib : Libnet L) (e : Endian) → IsMode (ping_mac lib e)
ping_mac-IsMode lib e = record {
  counts = λ c t s. ap (λ g. g.numsent) (pingmac_send_lem lib t.rand c t.before t.after s).1;
  keeps = pingmac_recv-Keeps e;
}
