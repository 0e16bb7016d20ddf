-- ===== src/Main.antt =====
-- `arping_main` of arping.c, of its parts.
pub mod Rolled
pub mod Echoed
pub mod Ways
pub mod Plain
pub mod Lives
pub mod Status
pub mod Returns
pub mod Kept
pub mod Answers
use arping.Prelude.{
  ℕ, Bool, true, false, ◌++◌, Option, none, some, List, [], ◌∷◌, if◌then◌else◌, ℤ, pos, Text,
  length, codes,
}
use arping.Host.Order.{Endian, ◌>>=◌}
use arping.Host.Clock.{Reading}
use arping.State.{Output, Globals}
use arping.Usage.{standard_usage, extended_usage, has_help}
use arping.Options.{Target, pingip, Locals, Parsed, next, exit, first_locals, first_globals}
use arping.Options.Switch.{Opt, parse}
use arping.Options.Settle.{settle}
use arping.Stage.{Stage, Step, go_on, quit, fault, on, Lookups}
use arping.Choose.{Devices, is_pingip, choose_target, find_interface}
use arping.Privileges.{Process}
use arping.GetMac.{Rts}
use arping.Setup.{Net}
use arping.Prepare.{World, Prepared, Ready, ready, stopped, prepare}
use arping.Send.{Libnet, Sender}
use arping.Run.{
  Turn, Mode, Finish, done, waiting, broken, exited, ping_ip, ping_mac, ping_loop, start_deadline,
  exit_status,
}
use arping.Run.Closing.{closing}

-- What the program is given: the arguments, as they are for the first loop, as `getopt` returns them,
-- and those behind the options; and what the world answers up to the first packet.
pub record Given (P B L : Type 0) : Type 0 where
  pub argv : List Text
  pub options : List Opt
  pub args : List Text
  pub atof : Text → ℤ
  pub resolve : Text → ℕ
  pub strdup_ok : Bool
  pub setvbuf_ok : Bool
  pub endian : Endian
  pub devices : Devices
  pub world : World P B
  pub fuel : ℕ
  pub process : Process
  pub libnet : Libnet L
  pub handle : L
  pub clock : Reading
  pub turns : List Turn

-- The program has ended with a status, still waits, or has read out of bounds.
pub data Result : Type 0 where
  returns : ℕ → List Output → Result
  waits : Result
  faults : Result

-- `closing` and the status.
unfoldable pub conclude : {L : Type 0} → Finish L → Result
conclude (done s) = let g = closing s.globals in returns (exit_status g) g.out
conclude (waiting s) = waits
conclude broken = faults
conclude (exited g) = returns 1 g.out

-- `libnet` is NULL at the start, and nothing is on its heap.
abbrev pub first_net : Net
first_net = record { libnet = 0; memory = record { cell = λ p. none; fresh = 1; closed = [] } }

module _ {P B L : Type 0} (given : Given P B L) where
  abbrev pub mode_of : Target → Mode L
  mode_of t =
      if is_pingip t then ping_ip given.libnet given.endian else ping_mac given.libnet given.endian

  -- "let's roll".
  unfoldable pub roll : Locals → Globals → Finish L
  roll l g =
      let (deadline, g1) = start_deadline given.clock l.deadline g in
      ping_loop (mode_of l.mode) l.maxcount l.packetwait deadline 0 given.turns (record {
        arp_tag = pos 0;
        icmp_tag = pos 0;
        ipv4_tag = pos 0;
        eth_tag = pos 0;
        handle = given.handle;
        globals = g1;
      })

  -- `find_interface` leaves an interface in any case.
  unfoldable pub begin : Stage → Option Text → Result
  begin s none = faults
  begin s (some ifname) =
      elim (prepare given.world s.locals given.fuel ifname s.parm given.process
        (record { cookies = 0; out = [] }) s.net s.globals) [
          | some (ready p) ↦ conclude (roll s.locals p.globals)
          | some (stopped status out) ↦ returns status out
          | none ↦ faults
        ]

  abbrev pub lookups : Lookups
  lookups = record {
    fuel = given.fuel;
    answers = given.world.answers;
    unprivileged = given.world.unprivileged;
    resolve = given.resolve;
    own_ip = given.world.own_ip;
    setvbuf_ok = given.setvbuf_ok;
    name_of = given.world.name_of;
    strdup_ok = given.strdup_ok;
  }

  -- From the options to the interface.
  unfoldable pub choose : Stage → Step
  choose s =
      on (settle lookups (length given.args) s)
        (λ s1. on (choose_target lookups given.args s1) (find_interface given.endian given.devices))

  unfoldable pub after_options : Locals → Globals → Result
  after_options l g =
      elim (choose (record { locals = l; globals = g; net = first_net; parm = none })) [
        | go_on s ↦ begin s s.locals.ifname
        | quit status out ↦ returns status out
        | fault ↦ faults
      ]

  unfoldable pub arping_main : Result
  arping_main =
      if has_help given.argv
      then returns 0 (standard_usage ++ extended_usage)
      else elim (parse given.atof given.options first_locals first_globals) [
        | next l g ↦ after_options l g
        | exit status out ↦ returns status out
      ]

  -- Of arping_main.c.
  unfoldable pub main : Result
  main = arping_main
