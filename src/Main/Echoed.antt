-- ===== src/Main/Echoed.antt =====
-- A run of the loop that pings a MAC address, and the echo replies that its exit status stands for.
use arping.Prelude.{
  ℕ, ◌<◌, ◌≡◌, ◌↔◌, ◌∙◌, ap, subst, sym, refl, Bool, true, false, List, [], length, arith, ℤ,
}
use arping.Host.Order.{Packet}
use arping.State.{Globals, uint_mod}
use arping.Options.{pingmac, Locals}
use arping.Options.Settle.{xresolve}
use arping.Choose.{is_pingip}
use arping.Choose.Goal.{HasTarget}
use arping.Await.Hears.{Hears, AllCaptured}
use arping.Await.Echoes.{Counts, echoes_heard}
use arping.Send.{Sender}
use arping.Run.{ping_loop, done, ping_mac, start_deadline, exit_status}
use arping.Run.Handed.{delivered_in, handed_run}
use arping.Run.Heard.{GlobalsOf, ping_loop-Concluded}
use arping.Run.Echoes.{ping_mac-Sends, IsMacStatus, Counts-IsMacStatus}
use arping.Run.Closing.{closing}
use arping.Main.{Given, roll, lookups, mode_of}
use arping.Main.Rolled.{sender, closing_status}
use arping.Main.Kept.{start_deadline-Same}

-- The exit status says whether there was a reply; with -d it says nothing.
abbrev pub Echoes : Bool → ℕ → List Packet → Type 0
Echoes true n packets = n ≡ 0
Echoes false n packets = (n ≡ 0) ↔ (0 < length packets)

IsMacStatus-Echoes :
    (g : Globals) (packets : List Packet) (b : Bool)
    → IsMacStatus g packets
    → g.finddup ≡ b
    → Echoes b (exit_status g) packets
IsMacStatus-Echoes g packets true s e = s.duplicates e
IsMacStatus-Echoes g packets false s e = s.any e

module _ {P B L : Type 0} (given : Given P B L) where
  -- A run of packets to the address that was given; its status, which is not that of an error, says
  -- whether there was an echo reply among the packets handed over.
  pub record IsEchoed (finddup : Bool) (n : ℕ) (l : Locals) (g : Globals) : Type 0 where
    pub target : HasTarget (xresolve (lookups given)) given.args l g
    pub mode : l.mode ≡ pingmac
    pub packets : List Packet
    pub hears :
        Hears
          (echoes_heard given.endian (sender given l g).globals)
          (handed_run
            (ping_mac given.libnet given.endian)
            l.maxcount
            l.packetwait
            (start_deadline given.clock l.deadline g).0
            0
            given.turns
            (sender given l g))
          []
          packets
    pub says : Echoes finddup n packets

  -- A run of the loop that has ended with `done`.
  pub rolled_mac :
      (l : Locals) (g : Globals) (end : Sender L)
      → HasTarget (xresolve (lookups given)) given.args l g
      → l.mode ≡ pingmac
      → g.numrecvd ≡ 0
      → g.dupfound ≡ false
      → AllCaptured (delivered_in given.turns)
      → length (delivered_in given.turns) < uint_mod
      → roll given l g ≡ done end
      → IsEchoed g.finddup (exit_status (closing end.globals)) l g
  unfolding roll is_pingip
  rolled_mac l g end target mac none_yet no_dup captured room q =
      let same = start_deadline-Same given l.deadline g in
      let start : Globals = (sender given l g).globals in
      let deadline : ℤ = (start_deadline given.clock l.deadline g).0 in
      let before : Counts start start [] = record {
        numrecvd = same.numrecvd ∙ none_yet;
        dupfound = same.dupfound ∙ no_dup;
        finddup = refl;
      } in
      let c =
        ping_loop-Concluded (ping_mac given.libnet given.endian) (echoes_heard given.endian start)
          (ping_mac-Sends given.libnet given.endian) l.maxcount l.packetwait deadline 0 given.turns
          (sender given l g) [] captured (omega (arith, room)) before in
      let loop : ping_loop (ping_mac given.libnet given.endian) l.maxcount l.packetwait deadline 0
            given.turns (sender given l g)
          ≡ done end =
        ap
          (λ t.
            ping_loop (mode_of given t) l.maxcount l.packetwait deadline 0 given.turns
              (sender given l g))
          (sym mac)
        ∙ q in
      let last : end.globals ≡ c.globals = subst (λ x. GlobalsOf x c.globals) loop c.ended in
      record {
        target = target;
        mode = mac;
        packets = c.replies;
        hears = c.hears;
        says =
            subst (λ n. Echoes g.finddup n c.replies)
              (sym (closing_status end.globals ∙ ap exit_status last))
              (IsMacStatus-Echoes c.globals c.replies g.finddup
                (Counts-IsMacStatus start c.globals c.replies c.stands)
                (c.stands.finddup ∙ same.finddup));
      }
