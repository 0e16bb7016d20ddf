-- ===== src/Send/Wire.antt =====
-- The packets that `pingip_send` writes, over a libnet that keeps its documented promise: a tag of 0
-- makes a block, in front of the others, and any other tag replaces the block that has it.
use arping.Prelude.{
  sign, ℕ, true, negsuc, ◌≡◌, ◌∙◌, ap, refl, subst, ◌⊎◌, inl, inr, false, List, [], ◌∷◌, ℤ, pos,
  equal_ℤ, arith, if◌then◌else◌,
}
use arping.Host.Clock.{Reading}
use arping.Mac.{EthAddr}
use arping.State.{Globals, ethnull, ethxmas}
use arping.Send.{
  Block, arp, ethernet, ieee_802_1q, Libnet, Sender, link_block, arp_block, transmit, pingip_send,
}

-- The header of a packet from `srcmac` to `dstmac`: with a tag of the VLAN, or without.
pub data IsLink (type : ℕ) (g : Globals) (b : Block) : Type 0 where
  without_tag :
      (n : ℕ) → g.vlan_tag ≡ negsuc n → b ≡ ethernet g.dstmac g.srcmac type → IsLink type g b
  with_tag :
      (tag : ℕ)
      → g.vlan_tag ≡ pos tag
      → b ≡ ieee_802_1q g.dstmac g.srcmac 0x8100 g.vlan_prio (pos tag) type
      → IsLink type g b

abbrev pub all : ℕ → EthAddr
all b = record { m0 = b; m1 = b; m2 = b; m3 = b; m4 = b; m5 = b }

-- An ARP packet of Ethernet and IPv4, with 2 for a reply and 1 for a request.
pub record IsArpPacket (g : Globals) (b : Block) : Type 0 where
  pub op : ℕ
  pub at : EthAddr
  pub block : b ≡ arp 1 0x800 6 4 op g.srcmac g.srcip at g.dstip 16
  pub operation : ((g.send_reply ≡ true) × (op ≡ 2)) ⊎ ((g.send_reply ≡ false) × (op ≡ 1))
  pub to : ((g.unsolicited ≡ true) × (at ≡ all 255)) ⊎ ((g.unsolicited ≡ false) × (at ≡ all 0))

pub link_block-IsLink : (type : ℕ) (g : Globals) → IsLink type g (link_block type g)
unfolding link_block
link_block-IsLink type g = elim (sign g.vlan_tag) [
  | inl (n, e) ↦ with_tag n e (ground arith)
  | inr (n, e) ↦ without_tag n e (ground arith)
]

arp_block-IsArpPacket : (g : Globals) → IsArpPacket g (arp_block g)
unfolding arp_block
arp_block-IsArpPacket g = record {
  op = if g.send_reply then 2 else 1;
  at = if g.unsolicited then ethxmas else ethnull;
  block = refl;
  operation = ground arith;
  to = ground arith;
}

abbrev pub blocks_of : List (ℤ × Block) → List Block
blocks_of [] = []
blocks_of (b ∷ bs) = b.1 ∷ blocks_of bs

abbrev pub replace : ℤ → Block → List (ℤ × Block) → List (ℤ × Block)
replace t b [] = []
replace t b (c ∷ cs) = (if equal_ℤ t c.0 then (t, b) else c) ∷ replace t b cs

-- No block has this tag.
abbrev pub Fresh : ℤ → List (ℤ × Block) → Type 0
Fresh t [] = Unit
Fresh t (c ∷ cs) = (equal_ℤ t c.0 ≡ false) × Fresh t cs

replace_two :
    (a e : ℤ) (old_arp old_eth new_arp new_eth : Block)
    → equal_ℤ e a ≡ false
    → replace e new_eth (replace a new_arp ((e, old_eth) ∷ (a, old_arp) ∷ []))
      ≡ (e, new_eth) ∷ (a, new_arp) ∷ []
replace_two a e old_arp old_eth new_arp new_eth apart = ground arith

-- The blocks of a handle, the last built in front, and the packets that were written.
pub record IsLibnet {L : Type 0} (lib : Libnet L) : Type 0 where
  pub blocks : L → List (ℤ × Block)
  pub wire : L → List (List Block)
  pub build_new :
      (b : Block) (l : L)
      → (blocks (lib.build b (pos 0) l).1 ≡ ((lib.build b (pos 0) l).0, b) ∷ blocks l)
        × (equal_ℤ (lib.build b (pos 0) l).0 (pos 0) ≡ false)
        × Fresh (lib.build b (pos 0) l).0 (blocks l)
  pub build_again :
      (b : Block) (t : ℤ) (l : L)
      → equal_ℤ t (pos 0) ≡ false
      → (blocks (lib.build b t l).1 ≡ replace t b (blocks l)) × ((lib.build b t l).0 ≡ t)
  pub build_wire : (b : Block) (t : ℤ) (l : L) → wire (lib.build b t l).1 ≡ wire l
  pub write_wire : (l : L) → wire (lib.write l).1 ≡ blocks_of (blocks l) ∷ wire l
  pub write_blocks : (l : L) → blocks (lib.write l).1 ≡ blocks l

module _ {L : Type 0} (lib : Libnet L) (is : IsLibnet lib) where
  -- Before the first packet, and after one.
  pub record IsFirst (s : Sender L) : Type 0 where
    pub arp_new : s.arp_tag ≡ pos 0
    pub eth_new : s.eth_tag ≡ pos 0
    pub empty : is.blocks s.handle ≡ []

  pub record IsNext (s : Sender L) : Type 0 where
    pub eth_last : Block
    pub arp_last : Block
    pub arp_tagged : equal_ℤ s.arp_tag (pos 0) ≡ false
    pub eth_tagged : equal_ℤ s.eth_tag (pos 0) ≡ false
    pub apart : equal_ℤ s.eth_tag s.arp_tag ≡ false
    pub held : is.blocks s.handle ≡ (s.eth_tag, eth_last) ∷ (s.arp_tag, arp_last) ∷ []

  -- The two calls of a builder and the write, over the tags and the handle.
  abbrev arp_built : Sender L → ℤ × L
  arp_built s = lib.build (arp_block s.globals) s.arp_tag s.handle

  abbrev eth_built : Sender L → ℤ × L
  eth_built s = lib.build (link_block 0x806 s.globals) s.eth_tag (arp_built s).1

  first_blocks :
      (s : Sender L)
      → IsFirst s
      → (is.blocks (eth_built s).1
          ≡ ((eth_built s).0, link_block 0x806 s.globals)
            ∷ ((arp_built s).0, arp_block s.globals)
            ∷ [])
        × (equal_ℤ (eth_built s).0 (pos 0) ≡ false)
        × (equal_ℤ (arp_built s).0 (pos 0) ≡ false)
        × (equal_ℤ (eth_built s).0 (arp_built s).0 ≡ false)
  first_blocks s f =
      let (a, a_tag, a_fresh) = is.build_new (arp_block s.globals) s.handle in
      let (e, e_tag, e_fresh) =
        is.build_new (link_block 0x806 s.globals)
          (lib.build (arp_block s.globals) (pos 0) s.handle).1 in
      let apart =
        subst
          (λ bs.
            Fresh
              (lib.build (link_block 0x806 s.globals) (pos 0)
                (lib.build (arp_block s.globals) (pos 0) s.handle).1).0
              bs)
          a e_fresh in
      rw (f.arp_new, f.eth_new) (rw (e, a, f.empty) refl, e_tag, a_tag, apart.0)

  next_blocks :
      (s : Sender L)
      → IsNext s
      → (is.blocks (eth_built s).1
          ≡ (s.eth_tag, link_block 0x806 s.globals) ∷ (s.arp_tag, arp_block s.globals) ∷ [])
        × ((eth_built s).0 ≡ s.eth_tag)
        × ((arp_built s).0 ≡ s.arp_tag)
  next_blocks s n =
      let (a, a_tag) = is.build_again (arp_block s.globals) s.arp_tag s.handle n.arp_tagged in
      let (e, e_tag) =
        is.build_again (link_block 0x806 s.globals) s.eth_tag (arp_built s).1 n.eth_tagged in
      (
        e
            ∙ ap (replace s.eth_tag (link_block 0x806 s.globals))
                (a ∙ ap (replace s.arp_tag (arp_block s.globals)) n.held)
            ∙ replace_two s.arp_tag s.eth_tag n.arp_last n.eth_last (arp_block s.globals)
                (link_block 0x806 s.globals) n.apart,
        e_tag,
        a_tag,
      )

  after_write :
      (before after : Reading) (s : Sender L) (bs : List (ℤ × Block))
      → is.blocks (eth_built s).1 ≡ bs
      → (is.wire (pingip_send lib before after s).handle ≡ blocks_of bs ∷ is.wire s.handle)
        × (is.blocks (pingip_send lib before after s).handle ≡ bs)
  unfolding pingip_send transmit link_block
  after_write before after s bs q = (
    is.write_wire (eth_built s).1
        ∙ ap (λ x. blocks_of x ∷ is.wire (eth_built s).1) q
        ∙ ap (λ y. blocks_of bs ∷ y)
            (is.build_wire (link_block 0x806 s.globals) s.eth_tag (arp_built s).1
              ∙ is.build_wire (arp_block s.globals) s.arp_tag s.handle),
    is.write_blocks (eth_built s).1 ∙ q,
  )

  -- The two blocks that `pingip_send` has built.
  pingip_send_blocks :
      (before after : Reading) (s : Sender L)
      → IsFirst s ⊎ IsNext s
      → (is.wire (pingip_send lib before after s).handle
          ≡ (link_block 0x806 s.globals ∷ arp_block s.globals ∷ []) ∷ is.wire s.handle)
        × IsNext (pingip_send lib before after s)
  unfolding pingip_send transmit link_block
  pingip_send_blocks before after s (inl f) =
      let (q, e, a, apart) = first_blocks s f in
      let (w, held) = after_write before after s _ q in
      (
        w,
        record {
          eth_last = link_block 0x806 s.globals;
          arp_last = arp_block s.globals;
          arp_tagged = a;
          eth_tagged = e;
          apart = apart;
          held = held;
        },
      )
  pingip_send_blocks before after s (inr n) =
      let (q, e, a) = next_blocks s n in
      let (w, held) = after_write before after s _ q in
      (
        w,
        record {
          eth_last = link_block 0x806 s.globals;
          arp_last = arp_block s.globals;
          arp_tagged = rw a n.arp_tagged;
          eth_tagged = rw e n.eth_tagged;
          apart = rw (e, a) n.apart;
          held = rw (e, a) held;
        },
      )

  -- Over a libnet that keeps its promise and whose builders do not fail, `pingip_send` writes one packet of
  -- two blocks, whether it is the first packet or a later one, and leaves the tags for the next. The first
  -- is an Ethernet header from `srcmac` to `dstmac`, for ARP, with the tag and the priority of the VLAN if
  -- there is one. The second is an ARP request, or with -P a reply, from `srcmac` and `srcip` to `dstip`, at
  -- the hardware address zero, or with -U at the broadcast address.
  pub pingip_send-wire :
      (before after : Reading) (s : Sender L)
      → IsFirst s ⊎ IsNext s
      → (eth arp : Block) × (is.wire (pingip_send lib before after s).handle
          ≡ (eth ∷ arp ∷ []) ∷ is.wire s.handle)
        × IsLink 0x806 s.globals eth
        × IsArpPacket s.globals arp
        × IsNext (pingip_send lib before after s)
  pingip_send-wire before after s ready =
      let (written, next) = pingip_send_blocks before after s ready in
      (
        link_block 0x806 s.globals,
        arp_block s.globals,
        written,
        link_block-IsLink 0x806 s.globals,
        arp_block-IsArpPacket s.globals,
        next,
      )
