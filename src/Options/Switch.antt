-- ===== src/Options/Switch.antt =====
-- The switch over the options, and the fold of `while (EOF != (c = getopt(...)))`.
use arping.Prelude.{◌+◌, true, not, some, List, [], ◌∷◌, if◌then◌else◌, ℤ, Text, codes, strchr}
use arping.State.{quiet, dot, Globals}
use arping.Options.{
  exit, pingmac, pingip, Locals, atoi, to_uint, to_int16, to_micros, Parsed, next, usage, die,
  in_range, show_mac_too, show_ip_too, ip_broadcast,
}

-- What `getopt` returns, with `optarg`. `opt_other` is `?`, and the option -A, which the switch has no
-- case for.
pub data Opt : Type 0 where
  opt_0 opt_a opt_b opt_B opt_d opt_D opt_e opt_F opt_h opt_p opt_P opt_q opt_r opt_R : Opt
  opt_u opt_U opt_v opt_other : Opt
  opt_c opt_C opt_g opt_i opt_I opt_m opt_Q opt_s opt_S opt_t opt_T opt_V opt_w opt_W : Text → Opt

-- `atof` gives nanoseconds.
unfoldable pub switch : (Text → ℤ) → Opt → Locals → Globals → Parsed
switch atof opt_0 l g = next (record l { srcip_opt = some (codes "0.0.0.0") }) g
switch atof opt_a l g = next l (record g { beep = true })
switch atof opt_b l g = next (record l { srcip_opt = some ip_broadcast }) g
switch atof opt_B l g =
    next (record l { dstip_opt = some ip_broadcast; dstip_given = true; opt_B = true }) g
switch atof (opt_c arg) l g = next (record l { maxcount = to_uint (atoi arg) }) g
switch atof (opt_C arg) l g = next l (record g { max_replies = to_uint (atoi arg) })
switch atof opt_d l g = next l (record g { finddup = true })
switch atof opt_D l g = next l (record g { display = dot })
switch atof opt_e l g = next l (record g { reverse_beep = true })
switch atof opt_F l g = next (record l { dont_use_arping_lookupdev = true }) g
switch atof opt_h l g = usage 0 g
switch atof (opt_g arg) l g = next (record l { drop_group = some arg }) g
switch atof (opt_i arg) l g =
    if strchr arg b':'
    then die g "arping: If you're trying to feed me an interface alias"
    else next (record l { ifname = some arg }) g
switch atof (opt_I arg) l g = next (record l { ifname = some arg }) g
switch atof (opt_m arg) l g = next (record l { timestamp_type = some arg }) g
switch atof opt_p l g = next (record l { promisc = true }) g
switch atof opt_P l g = next l (record g { send_reply = true })
switch atof opt_q l g = next l (record g { display = quiet })
switch atof (opt_Q arg) l g =
    let prio = to_int16 (atoi arg) in
    if not (in_range 7 prio)
    then die g "arping: 802.1p priority must be 0-7."
    else next l (record g { vlan_prio = prio })
switch atof opt_r l g = next l (record g { display = show_mac_too g.display })
switch atof opt_R l g = next l (record g { display = show_ip_too g.display })
switch atof (opt_s arg) l g = next (record l { srcmac_opt = some arg }) g
switch atof (opt_S arg) l g = next (record l { srcip_opt = some arg }) g
switch atof (opt_t arg) l g = next (record l { dstmac_opt = some arg; mode = pingip }) g
switch atof (opt_T arg) l g =
    next (record l { opt_T = true; dstip_opt = some arg; mode = pingmac }) g
switch atof opt_u l g = next l (record g { alsototal = true })
switch atof opt_U l g =
    next (record l { opt_U = true; mode = pingip }) (record g { unsolicited = true })
switch atof opt_v l g = next l (record g { verbose = g.verbose + 1 })
switch atof (opt_V arg) l g =
    let tag = to_int16 (atoi arg) in
    if not (in_range 4095 tag)
    then die g "arping: vlan tag must 0-4095."
    else next l (record g { vlan_tag = tag })
switch atof (opt_w arg) l g = next (record l { deadline = atof arg }) g
switch atof (opt_W arg) l g = next (record l { packetwait = to_micros (atof arg) }) g
switch atof opt_other l g = usage 1 g

-- The options in order, until one ends the program.
unfoldable pub parse : (Text → ℤ) → List Opt → Locals → Globals → Parsed
parse atof [] l g = next l g
parse atof (o ∷ os) l g = elim (switch atof o l g) [
  | next l' g' ↦ parse atof os l' g'
  | exit status out ↦ exit status out
]
