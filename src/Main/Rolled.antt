-- ===== src/Main/Rolled.antt =====
-- A run of the loop that pings an IP address, and the replies that its exit status stands for.
use arping.Prelude.{
  ℕ, ◌<◌, ◌≡◌, ◌↔◌, ◌∙◌, ap, subst, sym, refl, Bool, true, false, List, [], length, arith, pos, ℤ,
}
use arping.Mac.{EthAddr}
use arping.State.{Globals, uint_mod}
use arping.Options.{pingip, Locals}
use arping.Options.Settle.{xresolve}
use arping.Choose.{is_pingip}
use arping.Choose.Goal.{HasTarget}
use arping.Recv.Accept.Duplicates.{Differ}
use arping.Recv.Ip.{tagged}
use arping.Recv.Ip.Senders.{Asks, Refines}
use arping.Await.Hears.{Hears, AllCaptured}
use arping.Send.{Sender}
use arping.Run.{ping_loop, done, ping_ip, start_deadline, exit_status}
use arping.Run.Handed.{delivered_in, handed_run}
use arping.Run.Heard.{GlobalsOf, ping_loop-Concluded}
use arping.Run.Senders.{ping_ip-Sends}
use arping.Await.Senders.{senders_heard}
use arping.Run.Status.{IsStatus, Refines-IsStatus}
use arping.Run.Closing.{closing}
use arping.Main.{Given, roll, lookups, mode_of}
use arping.Main.Status.{closing_same}
use arping.Main.Kept.{start_deadline-Same}

-- The exit status says whether two replies had different senders, with -d; or whether there was a reply.
abbrev pub Says : Bool → ℕ → List EthAddr → Type 0
Says true n senders = (n ≡ 1) ↔ Differ senders
Says false n senders = (n ≡ 0) ↔ (0 < length senders)

IsStatus-Says :
    (g : Globals) (senders : List EthAddr) (b : Bool)
    → IsStatus g senders
    → g.finddup ≡ b
    → Says b (exit_status g) senders
IsStatus-Says g senders true s e = s.duplicates e
IsStatus-Says g senders false s e = s.any e

pub closing_status : (g : Globals) → exit_status (closing g) ≡ exit_status g
unfolding exit_status
closing_status g = let (n, f, d) = closing_same g in ground arith

module _ {P B L : Type 0} (given : Given P B L) where
  -- The state before the first packet.
  abbrev pub sender : Locals → Globals → Sender L
  sender l g = record {
    arp_tag = pos 0;
    icmp_tag = pos 0;
    ipv4_tag = pos 0;
    eth_tag = pos 0;
    handle = given.handle;
    globals = (start_deadline given.clock l.deadline g).1;
  }

  -- A run of packets to the address that was found, from these variables; its status, which is not that of
  -- an error, says what the replies among the packets handed over were.
  pub record IsAnswered (finddup : Bool) (n : ℕ) (l : Locals) (g : Globals) : Type 0 where
    pub target : HasTarget (xresolve (lookups given)) given.args l g
    pub mode : l.mode ≡ pingip
    pub senders : List EthAddr
    pub hears :
        Hears
          (senders_heard given.endian (sender l g).globals)
          (handed_run
            (ping_ip given.libnet given.endian)
            l.maxcount
            l.packetwait
            (start_deadline given.clock l.deadline g).0
            0
            given.turns
            (sender l g))
          []
          senders
    pub says : Says finddup n senders

  -- A run of the loop that has ended with `done`.
  pub rolled :
      (l : Locals) (g : Globals) (end : Sender L)
      → HasTarget (xresolve (lookups given)) given.args l g
      → l.mode ≡ pingip
      → tagged g.vlan_tag ≡ false
      → g.numrecvd ≡ 0
      → g.dupfound ≡ false
      → AllCaptured (delivered_in given.turns)
      → length (delivered_in given.turns) < uint_mod
      → roll given l g ≡ done end
      → IsAnswered g.finddup (exit_status (closing end.globals)) l g
  unfolding roll is_pingip
  rolled l g end target ip untagged none_yet no_dup captured room q =
      let same = start_deadline-Same given l.deadline g in
      let start : Globals = (sender l g).globals in
      let deadline : ℤ = (start_deadline given.clock l.deadline g).0 in
      let asks : Asks start start = record {
        untagged = rw same.tag untagged;
        dstip = refl;
        dstmac = refl;
        same = refl;
        finddup = refl;
      } in
      let before : Refines start start [] = record {
        asks = asks;
        remembers = (same.numrecvd ∙ none_yet, same.dupfound ∙ no_dup);
      } in
      let c =
        ping_loop-Concluded (ping_ip given.libnet given.endian) (senders_heard given.endian start)
          (ping_ip-Sends given.libnet given.endian) l.maxcount l.packetwait deadline 0 given.turns
          (sender l g) [] captured (omega (arith, room)) before in
      let loop : ping_loop (ping_ip given.libnet given.endian) l.maxcount l.packetwait deadline 0
            given.turns (sender l g)
          ≡ done end =
        ap
          (λ t.
            ping_loop (mode_of given t) l.maxcount l.packetwait deadline 0 given.turns (sender l g))
          (sym ip)
        ∙ q in
      let last : end.globals ≡ c.globals = subst (λ x. GlobalsOf x c.globals) loop c.ended in
      record {
        target = target;
        mode = ip;
        senders = c.replies;
        hears = c.hears;
        says =
            subst (λ n. Says g.finddup n c.replies)
              (sym (closing_status end.globals ∙ ap exit_status last))
              (IsStatus-Says c.globals c.replies g.finddup
                (Refines-IsStatus start c.globals c.replies c.stands)
                (c.stands.asks.finddup ∙ same.finddup));
      }
