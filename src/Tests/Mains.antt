-- ===== src/Tests/Mains.antt =====
-- A whole run of the program: `-c 1 host`, with two replies in the turn.
use arping.Prelude.{
  ℕ, ◌+◌, ◌*◌, ◌≡◌, ◌≢◌, ◌⊎◌, refl, true, false, Bool, List, [], ◌∷◌, Option, none, some, ℤ, pos,
  codes, Text, Bool-cases, inl, inr, arith, ◌≤◌, ◌∙◌, All, sym, subst, length, str_eq,
}
use arping.Host.Order.{Endian}
use arping.State.{Output, Globals}
use arping.GetMac.Underlying.{at_bottom, down, bottom}
use arping.GetMac.Address.{dotted, plain, logical, get_mac-IsDevice}
use arping.Main.Returns.{ReadsMac, Returns, arping_main-Returns}
use arping.Main.Answers.{Answers, arping_main-Answers}
use arping.Run.Ends.{IsOver}
use arping.Run.Handed.{delivered_in}
use arping.Await.InBounds.{AllReadable}
use arping.Await.Hears.{AllCaptured}
use arping.Options.{Locals, next, atoi, signed_decimal, decimal, to_uint}
use arping.Mac.Scan.{skip_space, is_space}
use arping.Usage.{has_help}
use arping.Options.{first_locals, first_globals, exit}
use arping.Options.Switch.{Opt, opt_c, switch, parse}
use arping.Choose.{Devices}
use arping.Findif.{Sockaddr, Ifaddr}
use arping.Prepare.{World}
use arping.Send.{Block, Libnet}
use arping.Main.{Given, Result, returns, waits, faults, arping_main}
use arping.Options.Exits.{AsksHelp}
use arping.Main.Status.{IsRun, arping_main-success}
use arping.Tests.Packets.{arp_packet}
use arping.Recv.InBounds.{IsReadable}
use arping.Tests.Systems.{started_as_root, two_layers, upper, lower}
use arping.Tests.Heard.{heard_round, captured}
use arping.Tests.Runs.{lib, turn, late_round}
use arping.Tests.Targets.{world}

-- The target is 10.0.0.7, in the bytes of the packets of a little-endian host.
abbrev sample : Given (Bool × Bool) Text (List Block)
sample = record {
  argv = codes "host" ∷ [];
  options = opt_c (codes "1") ∷ [];
  args = codes "host" ∷ [];
  atof = λ s. pos 0;
  resolve = λ name. 10 + 16777216 * 7;
  strdup_ok = true;
  setvbuf_ok = true;
  endian = Endian.little;
  devices = record {
    getifaddrs = none;
    error = [];
    buffer = [];
    pcap_lookupdev = some (codes "em0");
    pcap_error = [];
  };
  world = world;
  fuel = 3;
  process = started_as_root.process;
  libnet = lib;
  handle = [];
  clock = record { failed = false; sec = 10; usec = 0 };
  turns = turn (heard_round ∷ late_round ∷ []) ∷ [];
}

abbrev printed : Result → List Output
printed (returns n out) = out
printed _ = []

run-0 : arping_main sample ≡ returns 0 (printed (arping_main sample))
unfolding arping.Await.dispatch arping.Await.end_round arping.Await.time_left arping.Await.passed
    arping.Await.after_select arping.Await.round arping.Await.rounds arping.Await.end_of
    arping.Await.ping_recv arping.Choose.is_pingip arping.Choose.check_self arping.Choose.pick_mode
    arping.Choose.need_target arping.Choose.resolve_target arping.Choose.parse_target
    arping.Choose.set_target arping.Choose.resolve_name arping.Choose.read_mac
    arping.Choose.name_target arping.Choose.target_self arping.Options.Settle.addresses
    arping.Options.Settle.settle_prio arping.Options.Settle.settle_count
    arping.Options.Settle.resolve_srcip arping.Options.Settle.resolve_dstip
    arping.Choose.choose_target arping.Choose.say_none arping.Choose.odd_interface
    arping.Choose.lookup_lan arping.Choose.lookup_default arping.Choose.or_default
    arping.Choose.find_interface arping.Findif.arping_lookupdev arping.GetMac.is_prefix
    arping.GetMac.strstr arping.GetMac.get_intf_mac arping.GetMac.mac_of arping.GetMac.get_mac
    arping.Handle.clear_blocks arping.Handle.libnet_clear_packet arping.Handle.libnet_destroy
    arping.Handle.is_link arping.Handle.open_fd arping.Handle.select_device
    arping.Handle.switch_type arping.Handle.dup_device arping.Handle.libnet_init
    arping.Host.Clock.fixup_loop arping.Host.Clock.fixup_timespec arping.Host.Order.word16
    arping.Host.Order.htons arping.Host.Order.word32 arping.Mac.is_mac_addr arping.Mac.Scan.is_space
    arping.Mac.Scan.skip_space arping.Main.conclude arping.Main.roll arping.Main.begin
    arping.Main.choose arping.Main.after_options arping.Main.arping_main arping.Options.decimal
    arping.Options.signed_decimal arping.Options.atoi arping.Options.to_uint arping.Options.in_range
    arping.Options.Settle.conflict arping.Options.Settle.settle_srcmac
    arping.Options.Settle.settle_dstmac arping.Options.Settle.settle_vlan
    arping.Options.Settle.unbuffer arping.Options.Settle.xresolve arping.Options.Settle.settle_srcip
    arping.Options.Settle.settle_dstip arping.Options.Settle.settle arping.Options.Switch.switch
    arping.Options.Switch.parse arping.Prelude.strchr arping.Prelude.str_eq arping.Prelude.◌+ℤ◌
    arping.Prelude.◌-ℤ◌ arping.Prepare.is_normal arping.Prepare.drop arping.Prepare.unblock
    arping.Prepare.install arping.Prepare.set_filter arping.Prepare.own_address arping.Prepare.greet
    arping.Prepare.own_mac arping.Prepare.capture arping.Prepare.finish arping.Prepare.open_capture
    arping.Prepare.prepare arping.Privileges.call arping.Privileges.jail
    arping.Privileges.drop_fs_root arping.Privileges.unless_zero arping.Privileges.drop_uid
    arping.Privileges.nobody arping.Privileges.pick_group arping.Privileges.drop_to
    arping.Privileges.drop_privileges arping.Recv.Accept.remember arping.Recv.Accept.count_reply
    arping.Recv.Accept.accept_ip arping.Recv.Ip.check_ip arping.Recv.Ip.check_sender
    arping.Recv.Ip.check_fields arping.Recv.Ip.find_arp arping.Recv.Ip.pingip_recv
    arping.Run.ping_loop arping.Run.start_deadline arping.Run.exit_status arping.Run.Closing.closing
    arping.Send.is_error arping.Send.stamp arping.Send.announce arping.Send.transmit
    arping.Send.pingip_send arping.Setup.drop_libnet arping.Setup.attempt arping.Setup.init_named
    arping.Setup.do_libnet_init arping.Setup.do_pcap_open_live arping.State.getclock
    arping.Stats.update_stats arping.Usage.has_help arping.Wait.wait_time
run-0 = refl

arping_main-success_example :
    (has_help sample.argv ≡ true)
    ⊎ (AsksHelp sample.atof sample.options first_locals first_globals ⊎ IsRun sample)
arping_main-success_example = arping_main-success sample (printed (arping_main sample)) run-0

-- `get_mac` of an interface with a dot in its name, and of one without.
sample-ReadsMac : ReadsMac sample
sample-ReadsMac ifname r = elim (Bool-cases (dotted ifname)) [
  | inl dot ↦
      let (r', e) =
        get_mac-IsDevice two_layers 2 0 0 0 0 7 [] 3 ifname (codes "irb") r
          (logical 7 false upper (upper ∷ lower ∷ []) bottom dot refl refl
            (down (omega arith) refl (down (omega arith) refl (at_bottom refl))) (omega arith))
          refl in
      (_, r', e)
  | inr plain_name ↦
      let (r', e) =
        get_mac-IsDevice two_layers 2 0 0 0 0 7 [] 3 ifname ifname r (plain plain_name refl) refl in
      (_, r', e)
]

abbrev one_packet : Locals
one_packet = record first_locals { maxcount = 1 }

sample-parse :
    parse sample.atof sample.options first_locals first_globals ≡ next one_packet first_globals
unfolding parse switch atoi signed_decimal decimal skip_space is_space to_uint
sample-parse = refl

turn-IsOver : IsOver 1000000 (turn (heard_round ∷ late_round ∷ []))
turn-IsOver = record {
  normal = omega arith;
  past = heard_round ∷ [];
  rest = [];
  last = late_round;
  rounds_are = refl;
  over = omega arith;
}

all_captured : AllCaptured (delivered_in sample.turns)
all_captured =
    (captured 2 (omega arith), (captured 1 (omega arith), (captured 2 (omega arith), tt)))

readable : (op : ℕ) → IsReadable first_globals.vlan_tag (arp_packet op)
readable op = record { long = omega arith; behind_tag = λ tag hln at. absurd (ground arith) }

sample-enough :
    (l : Locals) (g : Globals)
    → parse sample.atof sample.options first_locals first_globals ≡ next l g
    → (l.maxcount ≤ length sample.turns)
      × All (IsOver l.packetwait) sample.turns
      × AllReadable g.vlan_tag (delivered_in sample.turns)
sample-enough l g q =
    let parsed : next one_packet first_globals ≡ next l g = sym sample-parse ∙ q in
    let locals : one_packet ≡ l = ground arith in
    let globals : first_globals ≡ g = ground arith in
    (
      subst (λ l. l.maxcount ≤ length sample.turns) locals (omega arith),
      subst (λ l. All (IsOver l.packetwait) sample.turns) locals (turn-IsOver, tt),
      subst (λ g. AllReadable g.vlan_tag (delivered_in sample.turns)) globals
          (readable 2, (readable 1, (readable 2, tt))),
    )

arping_main-Returns_example : Returns (arping_main sample)
arping_main-Returns_example = arping_main-Returns sample sample-ReadsMac sample-enough

no_help : has_help sample.argv ≡ false
unfolding has_help str_eq
no_help = refl

arping_main-Answers_example :
    Answers sample one_packet first_globals 0 (printed (arping_main sample))
arping_main-Answers_example =
    arping_main-Answers sample one_packet first_globals 0 (printed (arping_main sample)) no_help
      sample-parse refl all_captured (omega arith) run-0
