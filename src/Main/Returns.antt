-- ===== src/Main/Returns.antt =====
-- `arping_main` returns, with the status 0 or 1.
use arping.Prelude.{
  ℕ, ◌≤◌, ◌<◌, ◌≡◌, ◌≢◌, subst, sym, refl, inl, inr, none, some, List, [], ◌++◌, Text, length,
  arith, All, Bool-cases, Option-cases, ℤ,
}
use arping.Host.Order.{Endian}
use arping.Mac.{EthAddr}
use arping.State.{Output, Globals, uint_mod, getclock}
use arping.Usage.{standard_usage, extended_usage, has_help}
use arping.Options.{Target, Locals, next, first_locals, first_globals}
use arping.Options.Switch.{parse}
use arping.Options.Bounds.{Parsed-cases, parse-IsSane}
use arping.Stage.{Stage, Step, go_on, quit, fault}
use arping.Stage.Calls.{Lives, on-go_on}
use arping.Setup.Lives.{IsNet}
use arping.Options.Settle.{settle}
use arping.Choose.{Devices, choose_target, find_interface, is_pingip}
use arping.Await.InBounds.{AllReadable}
use arping.GetMac.{Rts, get_mac}
use arping.Prepare.{Ready, ready, stopped}
use arping.Prepare.Begins.{Outcome, prepare-Outcome}
use arping.Send.{Sender}
use arping.Run.{Finish, done, waiting, broken, exited, exit_status}
use arping.Run.{start_deadline}
use arping.Run.Ends.{IsOver, ping_loop-ends}
use arping.Run.Handed.{delivered_in}
use arping.Run.InBounds.{IsSafe, ping_ip-IsSafe, ping_mac-IsSafe, ping_loop_in_bounds}
use arping.Prepare.Keeps.{prepare-Same}
use arping.Run.Closing.{closing}
use arping.Main.{
  Given, Result, returns, conclude, roll, begin, lookups, choose, after_options, arping_main,
  mode_of,
}
use arping.Main.Status.{first_net-IsNet, choose-Lives}
use arping.Options.Exits.{parse-exit}
use arping.Main.Ways.{
  first_stage, prepared, begin-ready, begin-stopped, after_options-go_on, after_options-quit,
}

-- It returns with 0 or 1.
abbrev pub Returns : Result → Type 0
Returns x = (n : ℕ) × (out : List Output) × (x ≡ returns n out) × (n ≤ 1)

exit_status_le : (g : Globals) → exit_status g ≤ 1
unfolding exit_status
exit_status_le g = ground arith

conclude-Returns :
    {L : Type 0} (x : Finish L)
    → x ≢ broken
    → ((s : Sender L) → x ≢ waiting s)
    → Returns (conclude x)
unfolding conclude
conclude-Returns (done s) b w = (_, _, refl, exit_status_le (closing s.globals))
conclude-Returns (waiting s) b w = absurd (w s refl)
conclude-Returns broken b w = absurd (b refl)
conclude-Returns (exited g) b w = (1, g.out, refl, omega arith)

-- The interface is known.
find_interface-named :
    (e : Endian) (devices : Devices) (s s' : Stage)
    → find_interface e devices s ≡ go_on s'
    → s'.locals.ifname ≢ none
unfolding find_interface
find_interface-named e devices s s' q unnamed = ground arith

module _ {P B L : Type 0} (given : Given P B L) where
  choose-named : (s s' : Stage) → choose given s ≡ go_on s' → s'.locals.ifname ≢ none
  unfolding choose
  choose-named s s' q =
      let (s1, e1, q1) = on-go_on (settle (lookups given) (length given.args) s) _ s' q in
      let (s2, e2, q2) = on-go_on (choose_target (lookups given) given.args s1) _ s' q1 in
      find_interface-named given.endian given.devices s2 s' q2

  mode_of-IsSafe : (t : Target) → IsSafe (mode_of given t)
  mode_of-IsSafe t = elim (Bool-cases (is_pingip t)) [
    | inl ip ↦ rw ip (ping_ip-IsSafe given.libnet given.endian)
    | inr mac ↦ rw mac (ping_mac-IsSafe given.libnet given.endian)
  ]

  start_deadline-tag :
      (deadline : ℤ) (g : Globals) → (start_deadline given.clock deadline g).1.vlan_tag ≡ g.vlan_tag
  unfolding start_deadline getclock
  start_deadline-tag deadline g = ground arith

  -- `get_mac` faults nowhere.
  abbrev pub ReadsMac : Type 0
  ReadsMac =
      (ifname : Text) (r : Rts)
      → (mac : EthAddr) × (r' : Rts) × (get_mac given.world.rtslib given.fuel ifname r
          ≡ some (mac, r'))

  -- The turns are enough, and what their packets hold was captured.
  record Enough (packetwait maxcount : ℕ) (tag : ℤ) : Type 0 where
    small : packetwait < uint_mod
    count : maxcount ≤ length given.turns
    over : All (IsOver packetwait) given.turns
    readable : AllReadable tag (delivered_in given.turns)

  roll-Returns :
      (l : Locals) (g : Globals)
      → Enough l.packetwait l.maxcount g.vlan_tag
      → Returns (conclude (roll given l g))
  unfolding roll
  roll-Returns l g h =
      conclude-Returns (roll given l g)
        (ping_loop_in_bounds (mode_of given l.mode) l.maxcount l.packetwait _
          (mode_of-IsSafe l.mode) 0 given.turns _
          (subst (λ tag. AllReadable tag (delivered_in given.turns))
            (sym (start_deadline-tag l.deadline g)) h.readable))
        (λ s.
          ping_loop-ends (mode_of given l.mode) l.maxcount l.packetwait _ 0 given.turns _ s h.small
            h.over (omega (arith, h.count)))

  begin-Returns :
      (s : Stage) (ifname : Text)
      → ReadsMac
      → IsNet given.fuel s.net
      → Enough s.locals.packetwait s.locals.maxcount s.globals.vlan_tag
      → Returns (begin given s (some ifname))
  begin-Returns s ifname reads net h =
      let (r, e, outcome) =
        prepare-Outcome given.world s.locals given.fuel ifname s.parm given.process
          (record { cookies = 0; out = [] }) s.net s.globals net (inr (reads ifname)) in
      begun r e outcome
    where
      begun :
          (r : Ready P)
          → prepared given s ifname ≡ some r
          → Outcome given.world s.locals given.fuel ifname given.process r
          → Returns (begin given s (some ifname))
      begun (stopped n out) e one =
          (n, out, begin-stopped given s ifname n out e, omega (arith, one))
      begun (ready p) e outcome =
          let same =
            prepare-Same given.world s.locals given.fuel ifname s.parm given.process
              (record { cookies = 0; out = [] }) s.net s.globals p e in
          subst Returns (begin-ready given s ifname p e) (
            roll-Returns s.locals p.globals
              (subst (Enough s.locals.packetwait s.locals.maxcount) (sym same.tag) h))

  after_options-Returns :
      (l : Locals) (g : Globals)
      → ReadsMac
      → Enough l.packetwait l.maxcount g.vlan_tag
      → Returns (after_options given l g)
  after_options-Returns l g reads h =
      chosen (choose given (first_stage given l g)) refl
        (choose-Lives given (first_stage given l g) (first_net-IsNet given.fuel))
    where
      chosen :
          (x : Step)
          → choose given (first_stage given l g) ≡ x
          → Lives given.fuel (first_stage given l g) x
          → Returns (after_options given l g)
      chosen (go_on s) e (net, keeps) = elim (Option-cases s.locals.ifname) [
        | inl unnamed ↦ absurd (choose-named (first_stage given l g) s e unnamed)
        | inr (ifname, named) ↦
            subst Returns (after_options-go_on given l g s (some ifname) e named) (
              begin-Returns s ifname reads net (record {
                small = rw keeps.packetwait h.small;
                count = omega (arith, keeps.maxcount, h.count);
                over = subst (λ w. All (IsOver w) given.turns) (sym keeps.packetwait) h.over;
                readable =
                    subst (λ tag. AllReadable tag (delivered_in given.turns)) (sym keeps.tag)
                      h.readable;
              }))
      ]
      chosen (quit n out) e one = (n, out, after_options-quit given l g n out e, omega (arith, one))
      chosen fault e f = elim f [ ]

-- `arping_main` returns, with the status 0 or 1, whatever libnet, libpcap, the kernel and the clock do: no
-- pointer of libnet is misused, no byte that was not captured is read, and the loops end. This is where
-- `get_mac` faults nowhere; and where, with what the options leave, the turns are enough for the count, each
-- with rounds that reach past the wait, and of each of their packets 54 bytes or more were captured, and with
-- a VLAN tag the address behind a hardware address of the length that the packet claims.
pub arping_main-Returns :
    {P B L : Type 0} (given : Given P B L)
    → ReadsMac given
    → ((l : Locals) (g : Globals)
        → parse given.atof given.options first_locals first_globals ≡ next l g
        → (l.maxcount ≤ length given.turns)
          × All (IsOver l.packetwait) given.turns
          × AllReadable g.vlan_tag (delivered_in given.turns))
    → Returns (arping_main given)
unfolding arping_main
arping_main-Returns given reads enough = elim (Bool-cases (has_help given.argv)) [
  | inl help ↦ (0, standard_usage ++ extended_usage, rw help refl, omega arith)
  | inr none_asked ↦
      elim (Parsed-cases (parse given.atof given.options first_locals first_globals)) [
        | inr (n, out, e) ↦ (
          n,
          out,
          rw (none_asked, e) refl,
          parse-exit given.atof given.options first_locals first_globals n out e,
        )
        | inl (l, g, e) ↦
            let (count, over, readable) = enough l g e in
            rw (none_asked, e)
              (after_options-Returns given l g reads (record {
                small = (parse-IsSane given.atof given.options l g e).packetwait;
                count = count;
                over = over;
                readable = readable;
              }))
      ]
]
