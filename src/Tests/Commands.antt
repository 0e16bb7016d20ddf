-- ===== src/Tests/Commands.antt =====
-- Command lines.
use arping.Prelude.{◌≡◌, refl, true, true, false, List, [], ◌∷◌, none, ℤ, pos, Text, codes}
use arping.State.{Globals, noted}
use arping.Mac.Scan.{skip_space, is_space}
use arping.Options.{
  first_locals, first_globals, next, atoi, signed_decimal, decimal, to_uint, to_int16, in_range,
}
use arping.Options.Switch.{Opt, opt_d, opt_V, opt_Q, switch, parse}
use arping.Options.Bounds.{IsSane, parse-IsSane}
use arping.Options.Settle.{
  conflict, settle_srcmac, settle_dstmac, settle_vlan, settle_srcip, settle_dstip, settle,
  addresses, unbuffer, settle_prio, settle_count,
}
use arping.Stage.{Stage, Lookups, go_on}
use arping.Tests.Handles.{granted, net}
use arping.Options.Settled.{IsSettled, settle-IsSettled}

abbrev no_times : Text → ℤ
no_times s = pos 0

abbrev command : List Opt
command = opt_V (codes "5") ∷ opt_Q (codes " 3") ∷ opt_d ∷ []

abbrev tagged_globals : Globals
tagged_globals = record first_globals { vlan_tag = pos 5; vlan_prio = pos 3; finddup = true }

command-parse : parse no_times command first_locals first_globals ≡ next first_locals tagged_globals
unfolding parse switch atoi signed_decimal decimal skip_space is_space to_int16 to_uint in_range
command-parse = refl

parse-IsSane_example : IsSane first_locals tagged_globals
parse-IsSane_example = parse-IsSane no_times command first_locals tagged_globals command-parse

tagged-IsSane : IsSane first_locals tagged_globals
tagged-IsSane = parse-IsSane no_times command first_locals tagged_globals command-parse

-- A tag is cut to 16 bits before its range is tested.
cut_tag :
    parse no_times (opt_V (codes "65541") ∷ []) first_locals first_globals
    ≡ next first_locals (record first_globals { vlan_tag = pos 5 })
unfolding parse switch atoi signed_decimal decimal skip_space is_space to_int16 to_uint in_range
cut_tag = refl

abbrev lookups : Lookups
lookups = record {
  fuel = 0;
  answers = λ site ifname. granted;
  unprivileged = false;
  resolve = λ name. 7;
  own_ip = λ site. 1;
  name_of = λ addr. [];
  strdup_ok = true;
  setvbuf_ok = true;
}

abbrev before : Stage
before = record { locals = first_locals; globals = tagged_globals; net = net; parm = none }

abbrev settled : Stage
settled = record before { locals = record first_locals { maxcount = 3 } }

command-settle : settle lookups 1 before ≡ go_on settled
unfolding settle addresses conflict settle_srcmac settle_dstmac settle_srcip settle_dstip
    settle_vlan unbuffer settle_prio settle_count in_range noted
command-settle = refl

settle-IsSettled_example :
    IsSettled first_locals (record first_locals { maxcount = 3 }) tagged_globals tagged_globals
settle-IsSettled_example = settle-IsSettled lookups 1 before settled tagged-IsSane command-settle
