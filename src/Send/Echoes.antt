-- ===== src/Send/Echoes.antt =====
-- The packets that `pingmac_send` writes, over the libnet of Send/Wire.
use arping.Prelude.{
  ℕ, ◌%◌, ◌≡◌, ◌∙◌, ap, subst, ◌⊎◌, inl, inr, false, List, [], ◌∷◌, ℤ, pos, equal_ℤ, arith,
}
use arping.Host.Clock.{Reading}
use arping.State.{Globals}
use arping.Send.{Block, icmpv4_echo, ipv4, Libnet, Sender, link_block, transmit, pingmac_send}
use arping.Send.Wire.{IsLibnet, blocks_of, replace, Fresh, IsLink, link_block-IsLink}

replace_three :
    (a b c : ℤ) (x y z x' y' z' : Block)
    → equal_ℤ c b ≡ false
    → equal_ℤ c a ≡ false
    → equal_ℤ b a ≡ false
    → replace c z' (replace b y' (replace a x' ((c, z) ∷ (b, y) ∷ (a, x) ∷ [])))
      ≡ (c, z') ∷ (b, y') ∷ (a, x') ∷ []
replace_three a b c x y z x' y' z' cb ca ba = ground arith

-- The two blocks above the link.
abbrev pub echo_block : (id seq : ℕ) → Block
echo_block id seq = icmpv4_echo 8 (id % 65536) (seq % 65536) 16

abbrev pub ip_block : (id : ℕ) → Globals → Block
ip_block id g = ipv4 28 (id % 65536) 64 1 g.srcip g.dstip

module _ {L : Type 0} (lib : Libnet L) (is : IsLibnet lib) where
  -- Before the first packet, and after one.
  pub record IsFirst (s : Sender L) : Type 0 where
    pub icmp_new : s.icmp_tag ≡ pos 0
    pub ipv4_new : s.ipv4_tag ≡ pos 0
    pub eth_new : s.eth_tag ≡ pos 0
    pub empty : is.blocks s.handle ≡ []

  pub record IsNext (s : Sender L) : Type 0 where
    pub eth_last : Block
    pub ipv4_last : Block
    pub icmp_last : Block
    pub icmp_tagged : equal_ℤ s.icmp_tag (pos 0) ≡ false
    pub ipv4_tagged : equal_ℤ s.ipv4_tag (pos 0) ≡ false
    pub eth_tagged : equal_ℤ s.eth_tag (pos 0) ≡ false
    pub eth_ipv4 : equal_ℤ s.eth_tag s.ipv4_tag ≡ false
    pub eth_icmp : equal_ℤ s.eth_tag s.icmp_tag ≡ false
    pub ipv4_icmp : equal_ℤ s.ipv4_tag s.icmp_tag ≡ false
    pub held :
        is.blocks s.handle
        ≡ (s.eth_tag, eth_last) ∷ (s.ipv4_tag, ipv4_last) ∷ (s.icmp_tag, icmp_last) ∷ []

  built_new :
      (b : Block) (t : ℤ) (l : L)
      → t ≡ pos 0
      → (is.blocks (lib.build b t l).1 ≡ ((lib.build b t l).0, b) ∷ is.blocks l)
        × (equal_ℤ (lib.build b t l).0 (pos 0) ≡ false)
        × Fresh (lib.build b t l).0 (is.blocks l)
  built_new b t l new = rw new (is.build_new b l)

  module _ (id seq : ℕ) (s : Sender L) where
    -- The three calls of a builder, over the tags and the handle.
    abbrev icmp_built : ℤ × L
    icmp_built = lib.build (echo_block id seq) s.icmp_tag s.handle

    abbrev ipv4_built : ℤ × L
    ipv4_built = lib.build (ip_block id s.globals) s.ipv4_tag icmp_built.1

    abbrev eth_built : ℤ × L
    eth_built = lib.build (link_block 0x800 s.globals) s.eth_tag ipv4_built.1

    -- What the builders leave.
    record Built : Type 0 where
      blocks :
          is.blocks eth_built.1
          ≡ (eth_built.0, link_block 0x800 s.globals)
            ∷ (ipv4_built.0, ip_block id s.globals)
            ∷ (icmp_built.0, echo_block id seq)
            ∷ []
      icmp_tag : equal_ℤ icmp_built.0 (pos 0) ≡ false
      ipv4_tag : equal_ℤ ipv4_built.0 (pos 0) ≡ false
      eth_tag : equal_ℤ eth_built.0 (pos 0) ≡ false
      eth_ipv4 : equal_ℤ eth_built.0 ipv4_built.0 ≡ false
      eth_icmp : equal_ℤ eth_built.0 icmp_built.0 ≡ false
      ipv4_icmp : equal_ℤ ipv4_built.0 icmp_built.0 ≡ false

    first_Built : IsFirst s → Built
    first_Built f =
        let (a, a_tag, a_fresh) = built_new (echo_block id seq) s.icmp_tag s.handle f.icmp_new in
        let (b, b_tag, b_fresh) =
          built_new (ip_block id s.globals) s.ipv4_tag icmp_built.1 f.ipv4_new in
        let (c, c_tag, c_fresh) =
          built_new (link_block 0x800 s.globals) s.eth_tag ipv4_built.1 f.eth_new in
        let one : is.blocks icmp_built.1 ≡ (icmp_built.0, echo_block id seq) ∷ [] =
          a ∙ ap (λ bs. (icmp_built.0, echo_block id seq) ∷ bs) f.empty in
        let two : is.blocks ipv4_built.1
            ≡ (ipv4_built.0, ip_block id s.globals) ∷ (icmp_built.0, echo_block id seq) ∷ [] =
          b ∙ ap (λ bs. (ipv4_built.0, ip_block id s.globals) ∷ bs) one in
        let above_one = subst (Fresh ipv4_built.0) one b_fresh in
        let above_two = subst (Fresh eth_built.0) two c_fresh in
        record {
          blocks = c ∙ ap (λ bs. (eth_built.0, link_block 0x800 s.globals) ∷ bs) two;
          icmp_tag = a_tag;
          ipv4_tag = b_tag;
          eth_tag = c_tag;
          eth_ipv4 = above_two.0;
          eth_icmp = above_two.1.0;
          ipv4_icmp = above_one.0;
        }

    next_Built : IsNext s → Built
    next_Built n =
        let (a, a_tag) = is.build_again (echo_block id seq) s.icmp_tag s.handle n.icmp_tagged in
        let (b, b_tag) =
          is.build_again (ip_block id s.globals) s.ipv4_tag icmp_built.1 n.ipv4_tagged in
        let (c, c_tag) =
          is.build_again (link_block 0x800 s.globals) s.eth_tag ipv4_built.1 n.eth_tagged in
        record {
          blocks =
              rw (c_tag, b_tag, a_tag)
                (c
                  ∙ ap (replace s.eth_tag (link_block 0x800 s.globals)) (
                      b
                      ∙ ap (replace s.ipv4_tag (ip_block id s.globals))
                          (a ∙ ap (replace s.icmp_tag (echo_block id seq)) n.held))
                  ∙ replace_three s.icmp_tag s.ipv4_tag s.eth_tag n.icmp_last n.ipv4_last n.eth_last
                      (echo_block id seq) (ip_block id s.globals) (link_block 0x800 s.globals)
                      n.eth_ipv4 n.eth_icmp n.ipv4_icmp);
          icmp_tag = rw a_tag n.icmp_tagged;
          ipv4_tag = rw b_tag n.ipv4_tagged;
          eth_tag = rw c_tag n.eth_tagged;
          eth_ipv4 = rw (c_tag, b_tag) n.eth_ipv4;
          eth_icmp = rw (c_tag, a_tag) n.eth_icmp;
          ipv4_icmp = rw (b_tag, a_tag) n.ipv4_icmp;
        }

    after_write :
        (before after : Reading) (bs : List (ℤ × Block))
        → is.blocks eth_built.1 ≡ bs
        → (is.wire (pingmac_send lib id seq before after s).handle
            ≡ blocks_of bs ∷ is.wire s.handle)
          × (is.blocks (pingmac_send lib id seq before after s).handle ≡ bs)
    unfolding pingmac_send transmit link_block
    after_write before after bs q = (
      is.write_wire eth_built.1
          ∙ ap (λ x. blocks_of x ∷ is.wire eth_built.1) q
          ∙ ap (λ y. blocks_of bs ∷ y)
              (is.build_wire (link_block 0x800 s.globals) s.eth_tag ipv4_built.1
                ∙ is.build_wire (ip_block id s.globals) s.ipv4_tag icmp_built.1
                ∙ is.build_wire (echo_block id seq) s.icmp_tag s.handle),
      is.write_blocks eth_built.1 ∙ q,
    )

    built-wire :
        (before after : Reading)
        → Built
        → (is.wire (pingmac_send lib id seq before after s).handle
            ≡ (link_block 0x800 s.globals ∷ ip_block id s.globals ∷ echo_block id seq ∷ [])
              ∷ is.wire s.handle)
          × IsNext (pingmac_send lib id seq before after s)
    unfolding pingmac_send transmit link_block
    built-wire before after b =
        let (w, held) = after_write before after _ b.blocks in
        (
          w,
          record {
            eth_last = link_block 0x800 s.globals;
            ipv4_last = ip_block id s.globals;
            icmp_last = echo_block id seq;
            icmp_tagged = b.icmp_tag;
            ipv4_tagged = b.ipv4_tag;
            eth_tagged = b.eth_tag;
            eth_ipv4 = b.eth_ipv4;
            eth_icmp = b.eth_icmp;
            ipv4_icmp = b.ipv4_icmp;
            held = held;
          },
        )

  pingmac_send_blocks :
      (id seq : ℕ) (before after : Reading) (s : Sender L)
      → IsFirst s ⊎ IsNext s
      → (is.wire (pingmac_send lib id seq before after s).handle
          ≡ (link_block 0x800 s.globals ∷ ip_block id s.globals ∷ echo_block id seq ∷ [])
            ∷ is.wire s.handle)
        × IsNext (pingmac_send lib id seq before after s)
  pingmac_send_blocks id seq before after s (inl f) =
      built-wire id seq s before after (first_Built id seq s f)
  pingmac_send_blocks id seq before after s (inr n) =
      built-wire id seq s before after (next_Built id seq s n)

  -- Over a libnet that keeps its promise and whose builders do not fail, `pingmac_send` writes one packet of
  -- three blocks, whether it is the first packet or a later one, and leaves the tags for the next: an
  -- Ethernet header from `srcmac` to `dstmac`, for IPv4, with the tag and the priority of the VLAN if there
  -- is one; an IPv4 header of ICMP from `srcip` to `dstip`; and an ICMP echo request with `id` and `seq`
  -- cut to 16 bits.
  pub pingmac_send-wire :
      (id seq : ℕ) (before after : Reading) (s : Sender L)
      → IsFirst s ⊎ IsNext s
      → (eth : Block) × (is.wire (pingmac_send lib id seq before after s).handle
          ≡ (eth
              ∷ ipv4 28 (id % 65536) 64 1 s.globals.srcip s.globals.dstip
              ∷ icmpv4_echo 8 (id % 65536) (seq % 65536) 16
              ∷ [])
            ∷ is.wire s.handle)
        × IsLink 0x800 s.globals eth
        × IsNext (pingmac_send lib id seq before after s)
  pingmac_send-wire id seq before after s ready =
      let (written, next) = pingmac_send_blocks id seq before after s ready in
      (link_block 0x800 s.globals, written, link_block-IsLink 0x800 s.globals, next)
