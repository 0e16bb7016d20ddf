-- ===== src/Send/Counts.antt =====
-- What a sender does to the globals, whatever libnet answers.
use arping.Prelude.{
  ℕ, ap, ◌∙◌, ◌+◌, ◌%◌, ◌≡◌, refl, Bool, ◌||◌, ◌&&◌, List, ◌++◌, arith, Bool-cases, inl, inr, ltb,
  ℤ,
}
use arping.Host.Clock.{Timespec, Reading}
use arping.State.{Output, Globals, clock_time, clock_error, getclock, uint_mod}
use arping.Send.{
  Libnet, Sender, is_error, complaint, stamp, announce, link_block, link_builder, arp_block,
  transmit, pingip_send, pingmac_send, icmpv4_echo, ipv4, or_die,
}

-- The globals after a send: one packet more, the time of the second reading, whether the program
-- ends, and what was printed.
abbrev pub sent : Bool → Reading → Globals → List Output → Globals
sent die after g out = record g {
  lastpacketsent = clock_time after;
  numsent = (g.numsent + 1) % uint_mod;
  time_to_die = die;
  out = out;
}

or_assoc : (a b c : Bool) → (a || (b || c)) ≡ ((a || b) || c)
or_assoc a b c = ground arith

or_assoc_4 : (a b c d e : Bool) → (a || (b || (c || (d || e)))) ≡ ((a || (b || (c || d))) || e)
or_assoc_4 a b c d e = ground arith

or_assoc_3 : (a b c d : Bool) → (a || (b || (c || d))) ≡ ((a || (b || c)) || d)
or_assoc_3 a b c d = ground arith

-- The fields that `announce` changes.
announce_lem :
    (r : Reading) (g : Globals)
    → (ts : Timespec) × (o : List Output) × (announce r g ≡ record g {
      lastpacketsent = ts;
      time_to_die = (ltb 1 g.verbose && r.failed) || g.time_to_die;
      out = o;
    })
unfolding announce stamp getclock
announce_lem r g = elim (Bool-cases (ltb 1 g.verbose)) [
  | inl shown ↦ rw shown (clock_time r, _, refl)
  | inr silent ↦ rw silent (g.lastpacketsent, g.out, refl)
]

module _ {L : Type 0} (lib : Libnet L) where
  transmit_lem :
      (type : ℕ) (before after : Reading) (s : Sender L)
      → (out : List Output) × ((transmit lib type before after s).globals
          ≡ sent
              (let eth = lib.build (link_block type s.globals) s.eth_tag s.handle in
                after.failed
                || (is_error (lib.write eth.1).0
                    || ((ltb 1 s.globals.verbose && before.failed) || is_error eth.0))
                || s.globals.time_to_die)
              after
              s.globals
              out)
  unfolding transmit stamp getclock
  transmit_lem type before after s =
      let g = s.globals in
      let eth = lib.build (link_block type g) s.eth_tag s.handle in
      let (ts, o, q) = announce_lem before (or_die eth.0 (link_builder g) g) in
      (
        o ++ complaint (lib.write eth.1).0 "arping: libnet_write()" ++ clock_error after,
        rw q (
            ap
              (λ b.
                sent b after g (
                  o ++ complaint (lib.write eth.1).0 "arping: libnet_write()" ++ clock_error after))
              (or_assoc_4 after.failed (is_error (lib.write eth.1).0)
                (ltb 1 g.verbose && before.failed) (is_error eth.0) g.time_to_die)),
      )

  -- The Ethernet block, the packet and the clock, of a send of `type` whose handle is then `l`.
  abbrev pub transmit_fails : ℕ → Reading → Reading → Globals → ℤ → L → Bool
  transmit_fails type before after g eth_tag l =
      let eth = lib.build (link_block type g) eth_tag l in
      after.failed
      || (is_error (lib.write eth.1).0 || ((ltb 1 g.verbose && before.failed) || is_error eth.0))

  -- `pingip_send` builds the ARP request or reply of the globals and the Ethernet header, and
  -- writes the packet, even after one of these failed. It counts a packet in every case, notes the
  -- time of the clock after it, ends the program exactly if it was ending, or a call of libnet or
  -- the clock failed, and changes nothing else but what is printed.
  pub pingip_send_lem :
      (before after : Reading) (s : Sender L)
      → (out : List Output) × ((pingip_send lib before after s).globals ≡ (
          let arp = lib.build (arp_block s.globals) s.arp_tag s.handle in
          sent
            ((transmit_fails 0x806 before after s.globals s.eth_tag arp.1 || is_error arp.0)
              || s.globals.time_to_die)
            after
            s.globals
            out))
  unfolding pingip_send link_block
  pingip_send_lem before after s =
      let g = s.globals in
      let arp = lib.build (arp_block g) s.arp_tag s.handle in
      let (out, q) = transmit_lem 0x806 before after (record s {
        arp_tag = arp.0;
        handle = arp.1;
        globals = or_die arp.0 "arping: libnet_build_arp()" g;
      }) in
      (
        out,
        q
            ∙ ap (λ b. sent b after g out)
                (or_assoc (transmit_fails 0x806 before after g s.eth_tag arp.1) (is_error arp.0)
                  g.time_to_die),
      )

  -- `pingmac_send` builds the ICMP, IPv4 and Ethernet blocks and writes the packet, even after one
  -- of these failed. It counts a packet in every case, notes the time of the clock after it, ends
  -- the program exactly if it was ending, or a call of libnet or the clock failed, and changes
  -- nothing else but what is printed.
  pub pingmac_send_lem :
      (id seq : ℕ) (before after : Reading) (s : Sender L)
      → (out : List Output) × ((pingmac_send lib id seq before after s).globals ≡ (
          let echo = lib.build (icmpv4_echo 8 (id % 65536) (seq % 65536) 16) s.icmp_tag s.handle in
          let ip =
            lib.build
              (ipv4 28 (id % 65536) 64 1 s.globals.srcip s.globals.dstip)
              s.ipv4_tag
              echo.1 in
          sent
            ((transmit_fails 0x800 before after s.globals s.eth_tag ip.1
                || (is_error ip.0 || is_error echo.0))
              || s.globals.time_to_die)
            after
            s.globals
            out))
  unfolding pingmac_send link_block
  pingmac_send_lem id seq before after s =
      let g = s.globals in
      let echo = lib.build (icmpv4_echo 8 (id % 65536) (seq % 65536) 16) s.icmp_tag s.handle in
      let ip = lib.build (ipv4 28 (id % 65536) 64 1 g.srcip g.dstip) s.ipv4_tag echo.1 in
      let fails = transmit_fails 0x800 before after g s.eth_tag ip.1 in
      let (out, q) = transmit_lem 0x800 before after (record s {
        icmp_tag = echo.0;
        ipv4_tag = ip.0;
        handle = ip.1;
        globals = or_die ip.0 "libnet_build_ipv4()" (or_die echo.0 "libnet_build_icmpv4_echo()" g);
      }) in
      (
        out,
        q
            ∙ ap (λ b. sent b after g out)
                (or_assoc_3 fails (is_error ip.0) (is_error echo.0) g.time_to_die),
      )
