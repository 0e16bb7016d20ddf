-- ===== src/Send.antt =====
-- `pingip_send` and `pingmac_send` of arping.c: the blocks they hand to libnet, and what they do about
-- its answers. libnet is a parameter: its handle, its builders and `libnet_write`.
pub mod Counts
pub mod Wire
pub mod Echoes
use Prim.Native.String.{String}
use arping.Prelude.{
  ℕ, ◌+◌, ◌*◌, ◌%◌, Bool, List, [], ◌∷◌, ◌++◌, ◌||◌, ltb, ltb_ℤ, equal_ℤ, if◌then◌else◌, ℤ, pos,
  negsuc, codes,
}
use arping.Mac.{EthAddr}
use arping.Host.Clock.{Reading}
use arping.State.{Output, message, Globals, ethnull, ethxmas, uint_mod, note, getclock, clock_time}

-- The protocol blocks, with the arguments of `libnet_build_arp` and the others that vary.
pub data Block : Type 0 where
  arp : (hrd pro hln pln op : ℕ) → EthAddr → ℕ → EthAddr → ℕ → (padding : ℕ) → Block
  ethernet : EthAddr → EthAddr → (type : ℕ) → Block
  ieee_802_1q : EthAddr → EthAddr → (tpi : ℕ) → (priority : ℤ) → (tag : ℤ) → (type : ℕ) → Block
  ipv4 : (len id ttl protocol src dst : ℕ) → Block
  icmpv4_echo : (type id seq padding : ℕ) → Block

-- A builder takes the tag of the block it replaces, 0 for a new one, and returns the block's tag; it
-- and `write` return -1 if they fail.
pub record Libnet (L : Type 0) : Type 0 where
  pub build : Block → ℤ → L → ℤ × L
  pub write : L → ℤ × L

-- The static tags of a sender, the handle and the globals.
pub record Sender (L : Type 0) : Type 0 where
  pub arp_tag : ℤ
  pub icmp_tag : ℤ
  pub ipv4_tag : ℤ
  pub eth_tag : ℤ
  pub handle : L
  pub globals : Globals

-- The test for -1, and what it prints.
unfoldable pub is_error : ℤ → Bool
is_error c = equal_ℤ c (negsuc 0)

unfoldable pub complaint : ℤ → String → List Output
complaint c s = if is_error c then message (codes s) ∷ [] else []

-- `sigint(0)` after the message.
abbrev pub or_die : ℤ → String → Globals → Globals
or_die c s g = record g { time_to_die = is_error c || g.time_to_die; out = g.out ++ complaint c s }

-- Two readings of the clock: before the packet is written, if `verbose > 1`, and after it.
unfoldable pub stamp : Reading → Globals → Globals
stamp r g = let (ts, g') = getclock r g in record g' { lastpacketsent = ts }

unfoldable pub announce : Reading → Globals → Globals
announce r g = if ltb 1 g.verbose then note (stamp r g) 1 "arping: sending packet at time" else g

-- The block below: a tagged Ethernet header if there is a vlan tag.
unfoldable pub link_block : ℕ → Globals → Block
link_block type g =
    if ltb_ℤ g.vlan_tag (pos 0)
    then ethernet g.dstmac g.srcmac type
    else ieee_802_1q g.dstmac g.srcmac 0x8100 g.vlan_prio g.vlan_tag type

unfoldable pub link_builder : Globals → String
link_builder g =
    if ltb_ℤ g.vlan_tag (pos 0)
    then "arping: libnet_build_ethernet()"
    else "arping: libnet_build_802_1q()"

unfoldable pub arp_block : Globals → Block
arp_block g =
    arp 1 0x800 6 4 (if g.send_reply then 2 else 1) g.srcmac g.srcip
      (if g.unsolicited then ethxmas else ethnull) g.dstip 16

module _ {L : Type 0} (lib : Libnet L) where
  -- What both senders end with: the Ethernet block, the packet, the time and the count.
  unfoldable pub transmit : ℕ → Reading → Reading → Sender L → Sender L
  transmit type before after s =
      let g0 = s.globals in
      let (eth, l1) = lib.build (link_block type g0) s.eth_tag s.handle in
      let g1 = or_die eth (link_builder g0) g0 in
      let g2 = announce before g1 in
      let (c, l2) = lib.write l1 in
      let g3 = or_die c "arping: libnet_write()" g2 in
      let g4 = stamp after g3 in
      record s {
        eth_tag = eth;
        handle = l2;
        globals = record g4 { numsent = (g4.numsent + 1) % uint_mod };
      }

  unfoldable pub pingip_send : Reading → Reading → Sender L → Sender L
  pingip_send before after s =
      let (t, l) = lib.build (arp_block s.globals) s.arp_tag s.handle in
      transmit 0x806 before after (record s {
        arp_tag = t;
        handle = l;
        globals = or_die t "arping: libnet_build_arp()" s.globals;
      })

  -- `id` and `seq` are 16 bits wide.
  unfoldable pub pingmac_send : ℕ → ℕ → Reading → Reading → Sender L → Sender L
  pingmac_send id seq before after s =
      let (t, l) = lib.build (icmpv4_echo 8 (id % 65536) (seq % 65536) 16) s.icmp_tag s.handle in
      let g1 = or_die t "libnet_build_icmpv4_echo()" s.globals in
      let (u, l') = lib.build (ipv4 28 (id % 65536) 64 1 g1.srcip g1.dstip) s.ipv4_tag l in
      transmit 0x800 before after (record s {
        icmp_tag = t;
        ipv4_tag = u;
        handle = l';
        globals = or_die u "libnet_build_ipv4()" g1;
      })
