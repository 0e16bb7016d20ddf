-- ===== src/Main/Answers.antt =====
-- The exit status of a whole run, and the replies that it stands for.
use arping.Prelude.{
  ℕ, ◌<◌, ◌≡◌, ◌⊎◌, ◌∙◌, subst, sym, refl, inl, inr, false, Option, none, some, List, [], Text,
  length, arith, Option-cases,
}
use arping.State.{Output, Globals, uint_mod}
use arping.Usage.{has_help}
use arping.Options.{Locals, next, first_locals, first_globals}
use arping.Options.Switch.{parse}
use arping.Options.Settle.{xresolve}
use arping.Stage.{Stage, go_on, quit}
use arping.Stage.Calls.{Keeps, Lives}
use arping.Choose.Goal.{HasTarget-same}
use arping.Recv.Ip.{tagged}
use arping.Await.Hears.{AllCaptured}
use arping.Prepare.{Prepared, ready, stopped}
use arping.Prepare.Keeps.{prepare-Same}
use arping.Send.{Sender}
use arping.Run.{Finish, done, waiting, broken, exited, exit_status}
use arping.Run.Exits.{HasNoFd, ping_loop-HasNoFd}
use arping.Run.Handed.{delivered_in}
use arping.Run.Closing.{closing}
use arping.Main.{
  Given, returns, conclude, roll, begin, lookups, choose, mode_of, after_options, arping_main,
}
use arping.Main.Status.{Step-cases, first_net-IsNet, choose-Lives}
use arping.Main.Ways.{prepared, first_stage}
use arping.Main.Kept.{parse-counts, choose-HasTarget, target_mode}
use arping.Prepare.Stops.{prepare-stopped}
use arping.Main.Echoed.{IsEchoed, rolled_mac}
use arping.Main.Rolled.{IsAnswered, rolled}

module _ {P B L : Type 0} (given : Given P B L) where
  -- What a returned status was made of.
  concluded :
      (x : Finish L) (n : ℕ) (out : List Output)
      → conclude x ≡ returns n out
      → ((n ≡ 1) × (g : Globals) × (x ≡ exited g))
        ⊎ ((end : Sender L) × (x ≡ done end) × (n ≡ exit_status (closing end.globals)))
  unfolding conclude
  concluded (done s) n out q = inr (s, refl, ground arith)
  concluded (waiting s) n out q = absurd (ground arith)
  concluded broken n out q = absurd (ground arith)
  concluded (exited g) n out q = inl (ground arith, g, refl)

  roll-HasNoFd : (l : Locals) (g g' : Globals) → roll given l g ≡ exited g' → HasNoFd given.turns
  unfolding roll
  roll-HasNoFd l g g' q =
      ping_loop-HasNoFd (mode_of given l.mode) l.maxcount l.packetwait _ 0 given.turns _ g' q

  begun :
      (s : Stage) (name : Option Text) (n : ℕ) (out : List Output)
      → begin given s name ≡ returns n out
      → ((n ≡ 1) × (ifname : Text) × (prepared given s ifname ≡ some (stopped 1 out)))
        ⊎ ((ifname : Text) × (p : Prepared P) × (prepared given s ifname ≡ some (ready p))
            × (conclude (roll given s.locals p.globals) ≡ returns n out))
  unfolding begin
  begun s none n out q = absurd (ground arith)
  begun s (some ifname) n out q = elim (Option-cases (prepared given s ifname)) [
    | inl e ↦ absurd (ground arith)
    | inr (stopped m o, e) ↦
        let one : m ≡ 1 =
          prepare-stopped given.world s.locals given.fuel ifname s.parm given.process
            (record { cookies = 0; out = [] }) s.net s.globals m o e in
        let status : n ≡ 1 = ground arith in inl (status, ifname, ground arith)
    | inr (ready p, e) ↦ inr (ifname, p, e, ground arith)
  ]

  -- The program has ended with an error: the options or the target were refused, or the preparations, or a
  -- wait ended it, for which a turn has no descriptor to select on.
  abbrev pub HasFailed : Locals → Globals → List Output → Type 0
  HasFailed l g out =
      (choose given (first_stage given l g) ≡ quit 1 out)
      ⊎ ((s : Stage) × (choose given (first_stage given l g) ≡ go_on s)
          × (ifname : Text) × ((prepared given s ifname ≡ some (stopped 1 out))
              ⊎ ((p : Prepared P) × (prepared given s ifname ≡ some (ready p))
                  × HasNoFd given.turns
                  × (g' : Globals) × (roll given s.locals p.globals ≡ exited g'))))

  -- From the options on: an error; or the target and the interface are chosen, the preparations are made,
  -- and the run is one to an IP or to a MAC address that has come to its end, with its replies.
  abbrev pub Answers : Locals → Globals → ℕ → List Output → Type 0
  Answers l g n out =
      ((n ≡ 1) × HasFailed l g out)
      ⊎ ((s : Stage) × (ifname : Text) × (p : Prepared P) × (end : Sender L) × (choose given
              (first_stage given l g)
            ≡ go_on s)
          × (prepared given s ifname ≡ some (ready p))
          × (roll given s.locals p.globals ≡ done end)
          × (IsAnswered given g.finddup n s.locals p.globals
              ⊎ IsEchoed given g.finddup n s.locals p.globals))

  answered :
      (l : Locals) (g : Globals) (s : Stage) (n : ℕ) (out : List Output)
      → choose given (first_stage given l g) ≡ go_on s
      → Keeps (first_stage given l g) s
      → tagged g.vlan_tag ≡ false
      → g.numrecvd ≡ 0
      → g.dupfound ≡ false
      → AllCaptured (delivered_in given.turns)
      → length (delivered_in given.turns) < uint_mod
      → begin given s s.locals.ifname ≡ returns n out
      → Answers l g n out
  answered l g s n out chosen keeps untagged none_yet no_dup captured room q =
      elim (begun s s.locals.ifname n out q) [
        | inl (one, ifname, stops) ↦ inl (one, inr (s, chosen, ifname, inl stops))
        | inr (ifname, p, prepared, rolls) ↦
            let same =
              prepare-Same given.world s.locals given.fuel ifname s.parm given.process
                (record { cookies = 0; out = [] }) s.net s.globals p prepared in
            let target =
              HasTarget-same (xresolve (lookups given)) given.args s.locals s.locals s.globals
                p.globals refl refl same.dstip same.dstmac
                (choose-HasTarget given (first_stage given l g) s chosen) in
            elim (concluded (roll given s.locals p.globals) n out rolls) [
              | inl (one, g', exits) ↦ inl (
                one,
                inr (
                  s,
                  chosen,
                  ifname,
                  inr (p, prepared, roll-HasNoFd s.locals p.globals g' exits, g', exits),
                ),
              )
              | inr (end, ends, status) ↦
                  let found : p.globals.finddup ≡ g.finddup = same.finddup ∙ keeps.finddup in
                  let none_counted = same.numrecvd ∙ keeps.numrecvd ∙ none_yet in
                  let unmarked = same.dupfound ∙ keeps.dupfound ∙ no_dup in
                  elim (target_mode given s.locals p.globals target) [
                    | inl mac ↦
                        let answer =
                          rolled_mac given s.locals p.globals end target mac none_counted unmarked
                            captured room ends in
                        inr (
                          s,
                          ifname,
                          p,
                          end,
                          chosen,
                          prepared,
                          ends,
                          inr (
                              subst (λ b. IsEchoed given b n s.locals p.globals) found
                                (subst (λ n. IsEchoed given p.globals.finddup n s.locals p.globals)
                                  (sym status) answer)),
                        )
                    | inr ip ↦
                        let answer =
                          rolled given s.locals p.globals end target ip
                            (rw (same.tag ∙ keeps.tag) untagged) none_counted unmarked captured room
                            ends in
                        inr (
                          s,
                          ifname,
                          p,
                          end,
                          chosen,
                          prepared,
                          ends,
                          inl (
                              subst (λ b. IsAnswered given b n s.locals p.globals) found
                                (subst
                                  (λ n. IsAnswered given p.globals.finddup n s.locals p.globals)
                                  (sym status) answer)),
                        )
                  ]
            ]
      ]

  -- The options are followed by the rest.
  after_options-Answers :
      (l : Locals) (g : Globals) (n : ℕ) (out : List Output)
      → tagged g.vlan_tag ≡ false
      → g.numrecvd ≡ 0
      → g.dupfound ≡ false
      → AllCaptured (delivered_in given.turns)
      → length (delivered_in given.turns) < uint_mod
      → after_options given l g ≡ returns n out
      → Answers l g n out
  unfolding after_options
  after_options-Answers l g n out untagged none_yet no_dup captured room q =
      let lives = choose-Lives given (first_stage given l g) (first_net-IsNet given.fuel) in
      elim (Step-cases (choose given (first_stage given l g))) [
        | inl (s, e) ↦
            let (net, keeps) = subst (Lives given.fuel (first_stage given l g)) e lives in
            answered l g s n out e keeps untagged none_yet no_dup captured room (ground arith)
        | inr (inl (m, o, e)) ↦
            let one : m ≡ 1 = subst (Lives given.fuel (first_stage given l g)) e lives in
            let status : n ≡ 1 = ground arith in inl (status, inl (ground arith))
        | inr (inr e) ↦ absurd (ground arith)
      ]

  parsed-next :
      (l : Locals) (g : Globals)
      → has_help given.argv ≡ false
      → parse given.atof given.options first_locals first_globals ≡ next l g
      → arping_main given ≡ after_options given l g
  unfolding arping_main
  parsed-next l g h e = ground arith

-- If `arping_main`, with options that do not end the program and give no VLAN tag, returns n,
-- where 54 bytes or more were captured of each packet, and these are fewer than 2^32: then either
-- n is 1, and the options or the target were refused, the preparations stopped, or a wait ended
-- the program, one of the turns having no descriptor to select on; or the target and the interface
-- were chosen, the preparations made, and the loop ran to its end, and all of this holds. The
-- address is the one that was found or given. For an IP address, among the packets of the rounds
-- that were made, each once and in order, the senders of the replies for that address are a list,
-- for which with -d n is 1 exactly if two in it differ, and without -d n is 0 exactly if it is not
-- empty. For a MAC address n is 0 with -d, and without -d n is 0 exactly if there was an echo
-- reply among these packets.
pub arping_main-Answers :
    {P B L : Type 0} (given : Given P B L) (l : Locals) (g : Globals) (n : ℕ) (out : List Output)
    → has_help given.argv ≡ false
    → parse given.atof given.options first_locals first_globals ≡ next l g
    → tagged g.vlan_tag ≡ false
    → AllCaptured (delivered_in given.turns)
    → length (delivered_in given.turns) < uint_mod
    → arping_main given ≡ returns n out
    → Answers given l g n out
arping_main-Answers given l g n out no_help e untagged captured room q =
    let (none_yet, no_dup) =
      parse-counts given.atof given.options first_locals l first_globals g e in
    after_options-Answers given l g n out untagged none_yet no_dup captured room
      (sym (parsed-next given l g no_help e) ∙ q)
