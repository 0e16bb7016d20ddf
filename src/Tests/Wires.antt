-- ===== src/Tests/Wires.antt =====
-- A libnet that numbers its blocks, and keeps the packets that it writes.
use arping.Prelude.{
  ℕ, ◌+◌, ◌≤◌, ◌<◌, ◌≡◌, refl, inl, false, List, [], ◌∷◌, ℤ, pos, pos_part, equal_ℤ, arith,
  if◌then◌else◌,
}
use arping.Host.Clock.{Reading}
use arping.State.{initial}
use arping.Send.{Block, ipv4, icmpv4_echo, Libnet, Sender, pingip_send, pingmac_send}
use arping.Send.Echoes.{echo_block, ip_block, pingmac_send-wire}
use arping.Send.Echoes
use arping.Send.Wire.{
  IsLink, IsArpPacket, blocks_of, replace, Fresh, IsLibnet, IsFirst, IsNext, pingip_send-wire,
}

record Handle : Type 0 where
  held : List (ℤ × Block)
  written : List (List Block)

-- A number above every tag.
abbrev above : List (ℤ × Block) → ℕ
above [] = 1
above (b ∷ bs) = pos_part b.0 + above bs

abbrev numbering : Libnet Handle
numbering = record {
  build = λ b t l.
      if equal_ℤ t (pos 0)
      then (pos (above l.held), record l { held = (pos (above l.held), b) ∷ l.held })
      else (t, record l { held = replace t b l.held });
  write = λ l. (pos 42, record l { written = blocks_of l.held ∷ l.written });
}

above-positive : (bs : List (ℤ × Block)) → 0 < above bs
above-positive [] = omega arith
above-positive (b ∷ bs) = omega (arith, above-positive bs)

above-Fresh : (n : ℕ) (bs : List (ℤ × Block)) → above bs ≤ n → Fresh (pos n) bs
above-Fresh n [] h = _
above-Fresh n (b ∷ bs) h = (ground (arith, above-positive bs), above-Fresh n bs (omega arith))

numbering_laws : IsLibnet numbering
numbering_laws = record {
  blocks = λ l. l.held;
  wire = λ l. l.written;
  build_new = λ b l. (
    refl,
    ground (arith, above-positive l.held),
    above-Fresh (above l.held) l.held (omega arith),
  );
  build_again = λ b t l h. (rw h refl, rw h refl);
  build_wire = λ b t l. ground arith;
  write_wire = λ l. refl;
  write_blocks = λ l. refl;
}

abbrev first : Sender Handle
first = record {
  arp_tag = pos 0;
  icmp_tag = pos 0;
  ipv4_tag = pos 0;
  eth_tag = pos 0;
  handle = record { held = []; written = [] };
  globals = initial;
}

abbrev at : ℕ → Reading
at s = record { failed = false; sec = s; usec = 0 }

first-IsFirst : IsFirst numbering numbering_laws first
unfolding numbering_laws
first-IsFirst = record { arp_new = refl; eth_new = refl; empty = refl }

pingip_send-wire_example :
    (eth arp : Block) × (numbering_laws.wire (pingip_send numbering (at 1) (at 2) first).handle
      ≡ (eth ∷ arp ∷ []) ∷ numbering_laws.wire first.handle)
    × IsLink 0x806 initial eth
    × IsArpPacket initial arp
    × IsNext numbering numbering_laws (pingip_send numbering (at 1) (at 2) first)
pingip_send-wire_example =
    pingip_send-wire numbering numbering_laws (at 1) (at 2) first (inl first-IsFirst)

first_echo : Echoes.IsFirst numbering numbering_laws first
unfolding numbering_laws
first_echo = record { icmp_new = refl; ipv4_new = refl; eth_new = refl; empty = refl }

pingmac_send-wire_example :
    (eth : Block) × (numbering_laws.wire (pingmac_send numbering 70000 1 (at 1) (at 2) first).handle
      ≡ (eth ∷ ipv4 28 4464 64 1 initial.srcip initial.dstip ∷ icmpv4_echo 8 4464 1 16 ∷ [])
        ∷ numbering_laws.wire first.handle)
    × IsLink 0x800 initial eth
    × Echoes.IsNext numbering numbering_laws (pingmac_send numbering 70000 1 (at 1) (at 2) first)
pingmac_send-wire_example =
    pingmac_send-wire numbering numbering_laws 70000 1 (at 1) (at 2) first (inl first_echo)
