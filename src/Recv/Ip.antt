-- ===== src/Recv/Ip.antt =====
-- `pingip_recv` of arping.c.
pub mod Senders
pub mod Outcome
pub mod Fields
pub mod Reply
pub mod Short
pub mod Tagged
use arping.Prelude.{
  ℕ, ◌+◌, ◌*◌, Bool, true, false, Option, none, some, not, ◌&&◌, ◌==◌, ltb, if◌then◌else◌, ℤ, pos,
  negsuc,
}
use arping.Mac.{EthAddr, eth_eq}
use arping.Host.Order.{Endian, Packet, htons, load8, load16, load32, ◌>>=◌}
use arping.Host.Clock.{Timespec, Reading}
use arping.State.{Globals, note, getclock}
use arping.Recv.{PktHdr, shift_ether, eth_h, vlan_h, arp_h, eth_alen, load_eth}
use arping.Recv.Accept.{accept_ip}

-- `vlan_tag >= 0`.
abbrev pub tagged : ℤ → Bool
tagged (pos n) = true
tagged (negsuc n) = false

abbrev pub arpop_reply : ℕ
arpop_reply = 2

abbrev pub ethertype_ip : ℕ
ethertype_ip = 0x800

abbrev pub arphrd_ether : ℕ
arphrd_ether = 1

module _ (e : Endian) (h : PktHdr) (packet : Packet) (arrival : Timespec) where
  -- From `uint32_t ip` on: the sender's protocol address must be the one that was asked for.
  unfoldable pub check_ip : ℕ → Globals → Option Globals
  check_ip harp g = do
    hln ← load8 packet (harp + 4)
    ip ← load32 e packet (harp + hln + arp_h)
    if not (g.dstip == ip) then some g else do
      mac ← load_eth packet (shift_ether + 6)
      some (accept_ip h.len mac ip arrival (note g 3 "arping: ... for the right IPv4 address!"))

  -- `if (addr_must_be_same)`.
  unfoldable pub check_sender : ℕ → Globals → Option Globals
  check_sender harp g =
      let next = check_ip harp (note g 3 "arping: ... sent by acceptable host") in
      if g.addr_must_be_same
      then (do
        sender ← load_eth packet (harp + arp_h)
        if not (eth_eq sender g.dstmac) then some g else next)
      else next

  -- The three 16-bit fields, in the order of the code.
  unfoldable pub check_fields : ℕ → Globals → Option Globals
  check_fields harp g = do
    op ← load16 e packet (harp + 6)
    if not (htons e op == arpop_reply) then some g else do
      let g1 = note g 3 "arping: ... packet is ARP reply"
      pro ← load16 e packet (harp + 2)
      if not (htons e pro == ethertype_ip) then some g1 else do
        let g2 = note g1 3 "arping: ... from IPv4 address"
        hrd ← load16 e packet harp
        if not (htons e hrd == arphrd_ether)
            then some g2
            else check_sender harp (note g2 3 "arping: ... to Ethernet address")

  -- `harp` by the header in front of it; a short packet and odd address lengths are dropped, but
  -- not behind a VLAN tag.
  unfoldable pub find_arp : Globals → Option Globals
  find_arp g =
      if tagged g.vlan_tag
      then check_fields (shift_ether + vlan_h) g
      else if ltb h.caplen (eth_h + arp_h + 2 * (eth_alen + 4))
      then some g
      else do
        hln ← load8 packet (shift_ether + eth_h + 4)
        if not (hln == eth_alen) then some g else do
          pln ← load8 packet (shift_ether + eth_h + 5)
          if not (pln == 4) then some g else check_fields (shift_ether + eth_h) g

unfoldable pub pingip_recv : Endian → Reading → PktHdr → Packet → Globals → Option Globals
pingip_recv e r h packet g =
    let (arrival, g') = getclock r (note g 2 "arping: received response for IP ping") in
    find_arp e h packet arrival g'
