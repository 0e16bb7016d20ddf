-- ===== src/State.antt =====
-- The file-scope variables of arping.c as one record, what the program prints, and the helpers
-- that change them: `sigint`, `getclock`, and a message under a verbosity test.
use Prim.Native.String.{String}
use arping.Prelude.{
  ℕ, ◌*◌, Bool, true, false, ◌||◌, Option, List, [], ◌∷◌, ◌++◌, ltb, if◌then◌else◌, ℤ, pos, negsuc,
  codes, Text,
}
use arping.Mac.{EthAddr}
use arping.Host.Clock.{Timespec, Reading}

-- `display`; RAWRAW is -r and -R together.
pub data Display : Type 0 where
  normal quiet raw rraw rawraw dot : Display

-- A share of packets in percent, as a quotient; 0/0 is no number.
pub data Loss : Type 0 where
  undefined : Loss
  percent : ℕ → ℕ → Loss

-- The last line of the statistics, in nanoseconds: the mean is `total` over `count`, and the deviation
-- is in seconds, `none` if it was never written.
pub record Rtt : Type 0 where
  pub min : ℤ
  pub total : ℤ
  pub count : ℕ
  pub max : ℤ
  pub std_dev : Option ℕ

-- What goes to stdout and stderr, one constructor for each format.
pub data Output : Type 0 where
  bell bang newline timeout period : Output
  reply : ℕ → EthAddr → ℕ → ℕ → Option ℕ → Timespec → Timespec → Output
  echo : ℕ → ℕ → EthAddr → ℕ → Timespec → Timespec → Output
  show_mac : EthAddr → Output
  show_ip : ℕ → Output
  show_mac_ip : EthAddr → ℕ → Output
  message : Text → Output
  lost : Loss → ℕ → Output
  statistics : Text → ℕ → ℕ → Loss → ℕ → Option Rtt → Output

pub record Globals : Type 0 where
  pub lastpacketsent : Timespec
  pub target : Text
  pub dstip : ℕ  -- as a word of the host
  pub dstmac : EthAddr
  pub srcip : ℕ
  pub srcmac : EthAddr
  pub vlan_tag : ℤ
  pub vlan_prio : ℤ
  pub beep : Bool
  pub reverse_beep : Bool
  pub alsototal : Bool
  pub addr_must_be_same : Bool
  pub unsolicited : Bool
  pub send_reply : Bool
  pub finddup : Bool
  pub dupfound : Bool
  pub lastreplymac : EthAddr
  pub numsent : ℕ
  pub numrecvd : ℕ
  pub max_replies : ℕ
  pub stats_min_time : ℤ
  pub stats_max_time : ℤ
  pub stats_total_time : ℤ
  pub stats_total_sq_time : ℤ
  pub display : Display
  pub verbose : ℕ
  pub time_to_die : Bool
  pub out : List Output

abbrev pub ethnull : EthAddr
ethnull = record { m0 = 0; m1 = 0; m2 = 0; m3 = 0; m4 = 0; m5 = 0 }

abbrev pub ethxmas : EthAddr
ethxmas = record { m0 = 255; m1 = 255; m2 = 255; m3 = 255; m4 = 255; m5 = 255 }

abbrev pub uint_max : ℕ
uint_max = 4294967295

abbrev pub uint_mod : ℕ
uint_mod = 4294967296

-- The values that the declarations give.
abbrev pub initial : Globals
initial = record {
  lastpacketsent = record { tv_sec = pos 0; tv_nsec = pos 0 };
  target = codes "huh? bug in arping?";
  dstip = 0;
  dstmac = ethnull;
  srcip = 0;
  srcmac = ethnull;
  vlan_tag = negsuc 0;
  vlan_prio = negsuc 0;
  beep = false;
  reverse_beep = false;
  alsototal = false;
  addr_must_be_same = false;
  unsolicited = false;
  send_reply = false;
  finddup = false;
  dupfound = false;
  lastreplymac = ethnull;
  numsent = 0;
  numrecvd = 0;
  max_replies = uint_max;
  stats_min_time = negsuc 999999999;
  stats_max_time = negsuc 999999999;
  stats_total_time = pos 0;
  stats_total_sq_time = pos 0;
  display = normal;
  verbose = 0;
  time_to_die = false;
  out = [];
}

abbrev pub sigint : Globals → Globals
sigint g = record g { time_to_die = true }

abbrev pub print : Globals → Output → Globals
print g o = record g { out = g.out ++ o ∷ [] }

-- What a message printed under `verbose > level` adds to the output.
unfoldable pub noted : ℕ → ℕ → String → List Output
noted verbose level s = if ltb level verbose then message (codes s) ∷ [] else []

-- `if (verbose > level) printf(s)`.
abbrev pub note : Globals → ℕ → String → Globals
note g level s = record g { out = g.out ++ noted g.verbose level s }

-- `getclock`: a failed `gettimeofday` is reported and stops the program after this round, and the
-- time is then whatever `tv` holds.
abbrev pub clock_time : Reading → Timespec
clock_time r = record { tv_sec = pos r.sec; tv_nsec = pos (r.usec * 1000) }

-- What a failed reading prints.
unfoldable pub clock_error : Reading → List Output
clock_error r = if r.failed then message (codes "arping: gettimeofday()") ∷ [] else []

unfoldable pub getclock : Reading → Globals → Timespec × Globals
getclock r g =
    let g' = record g { time_to_die = r.failed || g.time_to_die; out = g.out ++ clock_error r } in
    (clock_time r, g')

-- What a reading of the clock changes besides the output: a failed one ends the program.
abbrev pub timed : Reading → Globals → Globals
timed r g = record g { time_to_die = r.failed || g.time_to_die }
