-- ===== src/Tests/Targets.antt =====
-- A target on the command line, a list of interfaces, the steps to the first packet, and the end of a run.
use arping.Prelude.{
  ℕ, ◌+◌, ◌-◌, ◌*◌, ◌/◌, ◌++◌, ltb, pos_part, ◌≡◌, inr, refl, true, false, Bool, List, [], ◌∷◌,
  none, some, pos, arith, codes, Text, ◌-ℤ◌, ◌*ℤ◌, strchr, str_eq,
}
use arping.Host.Clock.{Timespec}
use arping.State.{Globals, noted, initial, statistics, print}
use arping.Mac.{is_mac_addr, matches_from}
use arping.Options.{Locals, first_locals, first_globals, pingip}
use arping.Options.Settle.{xresolve}
use arping.Choose.{
  Devices, is_pingip, resolve_name, check_self, pick_mode, need_target, resolve_target,
  parse_target, set_target, choose_target,
}
use arping.Stage.{Stage, Step, Lookups, go_on}
use arping.Setup.{Net, do_libnet_init, attempt, init_named, drop_libnet}
use arping.Handle.{
  libnet_destroy, libnet_clear_packet, clear_blocks, libnet_init, dup_device, switch_type, is_link,
  select_device, open_fd,
}
use arping.Choose.Goal.{HasTarget, choose_target-HasTarget}
use arping.GetMac.{get_mac, strstr, is_prefix, open_cookie, mac_of, get_intf_mac}
use arping.Prepare.{unsigned_text, World, Ready, prepare}
use arping.Prepare.Confined.{Ends, prepare-Ends}
use arping.Privileges.{pick_group}
use arping.Privileges.Group.{group}
use arping.Prepare.Greeted.{HasMac}
use arping.Duration.{Doubles, ts2str}
use arping.Duration.Exact.{ts2str-unit_text}
use arping.Run.Closing.{loss, extra, variance, closing, closing-no_deviation}
use arping.Tests.Hosts.{interfaces, dstip}
use arping.Tests.Handles.{granted, net, net-IsNet}
use arping.Tests.Systems.{
  root_only, two_layers, no_cookies, started_as_root, sshd, other, root_only-RootMay, sshd_found,
  nobody_found,
}

abbrev pub name_of : ℕ → Text
name_of addr = codes "10.1.0.5"

abbrev lookups : Lookups
lookups = record {
  fuel = 2;
  answers = λ site ifname. granted;
  unprivileged = false;
  resolve = λ name. dstip;
  own_ip = λ site. 1;
  name_of = name_of;
  strdup_ok = true;
  setvbuf_ok = true;
}

abbrev args : List Text
args = codes "host" ∷ []

abbrev chosen_locals : Locals
chosen_locals = record first_locals { mode = pingip }

abbrev chosen_globals : Globals
chosen_globals = record first_globals { dstip = dstip; target = codes "10.1.0.5" }

abbrev before : Stage
before = record { locals = first_locals; globals = first_globals; net = net; parm = none }

-- `libnet` is a handle on `em0` now, as no interface is given.
abbrev net_of : Step → Net
net_of (go_on s) = s.net
net_of _ = net

abbrev chosen : Stage
chosen = record {
  locals = chosen_locals;
  globals = chosen_globals;
  net = net_of (choose_target lookups args before);
  parm = some (codes "10.1.0.5");
}

args-choose_target : choose_target lookups args before ≡ go_on chosen
unfolding choose_target check_self pick_mode need_target resolve_target resolve_name parse_target
    set_target is_pingip is_mac_addr matches_from xresolve strchr str_eq do_libnet_init attempt
    init_named drop_libnet libnet_destroy libnet_clear_packet clear_blocks libnet_init dup_device
    switch_type is_link select_device open_fd noted
args-choose_target = refl

choose_target-HasTarget_example : HasTarget (xresolve lookups) args chosen_locals chosen_globals
choose_target-HasTarget_example =
    choose_target-HasTarget lookups args before chosen args-choose_target

abbrev devices : Devices
devices = record {
  getifaddrs = some interfaces;
  error = [];
  buffer = [];
  pcap_lookupdev = none;
  pcap_error = [];
}

abbrev unnamed : Stage
unnamed = record before { locals = chosen_locals; globals = chosen_globals }

-- A capture is whether it blocks, and whether a filter is installed.
abbrev pub world : World (Bool × Bool) Text
world = record {
  answers = λ site ifname. granted;
  unprivileged = false;
  pcap_open_live = λ call name snaplen promisc to_ms. (some (true, false), []);
  pcap_setnonblock = λ p. some (false, p.1);
  pcap_compile = λ p filter. some filter;
  pcap_setfilter = λ p filter. some (p.0, true);
  own_ip = λ site. 1;
  name_of = name_of;
  rtslib = two_layers;
  system = root_only;
}

em1-HasMac : HasMac world chosen_locals 2 (codes "em1")
unfolding get_mac strstr is_prefix open_cookie mac_of get_intf_mac
em1-HasMac = inr (λ r. (_, _, refl))

nogroup : pick_group root_only none 99 ≡ group 99
unfolding pick_group
nogroup = refl

prepare-Ends_example :
    (r : Ready (Bool × Bool)) × (prepare world chosen_locals 2
        (codes "em1")
        none
        started_as_root.process
        no_cookies
        net
        chosen_globals
      ≡ some r)
    × Ends world chosen_locals 2
        (codes "em1")
        (record {
          uid = 99;
          gid = 99;
          groups = [];
          cwd = codes "/var/empty";
          root = codes "/var/empty";
        })
        r
prepare-Ends_example =
    prepare-Ends world chosen_locals 2 (codes "em1") none started_as_root.process no_cookies net
      chosen_globals sshd other 99 net-IsNet em1-HasMac root_only-RootMay refl sshd_found
      nobody_found nogroup (omega arith) (omega arith)

-- 2.5 milliseconds.
abbrev sent_at : Timespec
sent_at = record { tv_sec = pos 1; tv_nsec = pos 500000 }

abbrev replied_at : Timespec
replied_at = record { tv_sec = pos 1; tv_nsec = pos 3000000 }

-- Numbers in steps of a nanosecond, and the text of their whole part.
abbrev steps : Doubles ℕ
steps = record {
  of_int = λ z. pos_part z * 1000000000;
  add = λ a b. a + b;
  sub = λ a b. a - b;
  mul = λ a b. a * b / 1000000000;
  div = λ a b. a * 1000000000 / b;
  above = λ a b. ltb b a;
  fixed3 = λ a. unsigned_text (a / 1000000000);
}

ts2str-unit_text_example :
    ts2str steps 10 sent_at replied_at ≡ some (unsigned_text 2 ++ codes " msec")
ts2str-unit_text_example =
    ts2str-unit_text steps 10 2 sent_at replied_at (refl, (refl, refl)) (omega arith)

-- Two replies, after 2 and 4 milliseconds.
abbrev two_replies : Globals
two_replies = record initial {
  numsent = 2;
  numrecvd = 2;
  stats_min_time = pos 2000000;
  stats_max_time = pos 4000000;
  stats_total_time = pos 6000000;
  stats_total_sq_time = pos 20000000000000;
}

two_replies-variance : variance two_replies ≡ pos 4000000000000
unfolding variance ◌-ℤ◌ ◌*ℤ◌
two_replies-variance = refl

closing-no_deviation_example :
    closing two_replies
    ≡ print two_replies (
        statistics two_replies.target 2 2 (loss two_replies) (extra two_replies) (
          some (record {
            min = pos 2000000;
            total = pos 6000000;
            count = 2;
            max = pos 4000000;
            std_dev = none;
          })))
closing-no_deviation_example =
    closing-no_deviation two_replies 4000000000000 refl (omega arith) two_replies-variance
      (omega arith) (omega arith)
