-- ===== src/Options.antt =====
-- The command line of `arping_main` of arping.c: the switch over what `getopt` returns. `atof` is a
-- parameter, with seconds as nanoseconds.
pub mod Switch
pub mod Bounds
pub mod Settle
pub mod Settled
pub mod Exits
use Prim.Native.String.{String}
use arping.Prelude.{
  ℕ, ◌+◌, ◌*◌, ◌-◌, ◌/◌, ◌%◌, Bool, true, false, not, ◌&&◌, ◌||◌, ◌==◌, leb, ltb, Option, none,
  some, List, [], ◌∷◌, ◌++◌, if◌then◌else◌, ℤ, pos, negsuc, ltb_ℤ, pos_part, Text, codes, strchr,
}
use arping.Usage.{usage_texts}
use arping.State.{
  Display, normal, quiet, raw, rraw, rawraw, dot, Output, message, Globals, print, initial, ethxmas,
  uint_max, uint_mod,
}
use arping.Mac.Scan.{skip_space}

-- `enum { NONE, PINGMAC, PINGIP } mode`.
pub data Target : Type 0 where
  no_mode pingmac pingip : Target

-- The locals of `arping_main` that the options set.
pub record Locals : Type 0 where
  pub srcip_opt : Option Text
  pub dstip_opt : Option Text
  pub dstip_given : Bool
  pub srcmac_opt : Option Text
  pub dstmac_opt : Option Text
  pub ifname : Option Text
  pub timestamp_type : Option Text
  pub drop_group : Option Text
  pub opt_B : Bool
  pub opt_T : Bool
  pub opt_U : Bool
  pub maxcount : ℕ
  pub packetwait : ℕ
  pub deadline : ℤ
  pub promisc : Bool
  pub dont_use_arping_lookupdev : Bool
  pub mode : Target

abbrev pub first_locals : Locals
first_locals = record {
  srcip_opt = none;
  dstip_opt = none;
  dstip_given = false;
  srcmac_opt = none;
  dstmac_opt = none;
  ifname = none;
  timestamp_type = none;
  drop_group = none;
  opt_B = false;
  opt_T = false;
  opt_U = false;
  maxcount = uint_max;
  packetwait = 1000000;
  deadline = negsuc 999999999;
  promisc = false;
  dont_use_arping_lookupdev = false;
  mode = no_mode;
}

-- The globals before the options are read.
abbrev pub first_globals : Globals
first_globals = record initial { srcip = 0; dstip = uint_max; dstmac = ethxmas }

-- The decimal digits at the front, onto the value `v`.
unfoldable pub decimal : ℕ → Text → ℕ
decimal v [] = v
decimal v (c ∷ s) =
    let rest = decimal (v * 10 + (c - b'0')) s in if leb b'0' c && leb c b'9' then rest else v

unfoldable pub minus : ℕ → ℤ
minus n = if n == 0 then pos 0 else negsuc (n - 1)

unfoldable pub signed_decimal : Text → ℤ
signed_decimal [] = pos 0
signed_decimal (c ∷ s) =
    if c == b'-'
    then minus (decimal 0 s)
    else if c == b'+'
    then pos (decimal 0 s)
    else pos (decimal 0 (c ∷ s))

-- `atoi`, of texts whose number fits an `int`.
unfoldable pub atoi : Text → ℤ
atoi s = signed_decimal (skip_space s)

-- The conversions to `unsigned int` and `int16_t`.
unfoldable pub to_uint : ℤ → ℕ
to_uint (pos n) = n % uint_mod
to_uint (negsuc n) = uint_max - n % uint_mod

unfoldable pub to_int16 : ℤ → ℤ
to_int16 z = let m = to_uint z % 65536 in if ltb m 32768 then pos m else negsuc (65535 - m)

-- `(unsigned)(1000000.0 * x)`, for `x` in nanoseconds. C does not define the conversion of a negative
-- number.
unfoldable pub to_micros : ℤ → ℕ
to_micros (pos n) = n / 1000 % uint_mod
to_micros (negsuc n) = 0

-- What the switch does with an option: it goes on, or the program ends with a status.
pub data Parsed : Type 0 where
  next : Locals → Globals → Parsed
  exit : ℕ → List Output → Parsed

-- `usage`, where WIN32 is 0.
abbrev pub usage : ℕ → Globals → Parsed
usage status g = exit status (g.out ++ usage_texts false)

abbrev pub die : Globals → String → Parsed
die g s = exit 1 (print g (message (codes s))).out

-- A range test on an option of the VLAN.
unfoldable pub in_range : ℕ → ℤ → Bool
in_range most (pos n) = leb n most
in_range most (negsuc n) = false

-- `-r` and `-R` together are RAWRAW.
unfoldable pub show_mac_too : Display → Display
show_mac_too rraw = rawraw
show_mac_too _ = raw

unfoldable pub show_ip_too : Display → Display
show_ip_too raw = rawraw
show_ip_too _ = rraw

abbrev pub ip_broadcast : Text
ip_broadcast = codes "255.255.255.255"
