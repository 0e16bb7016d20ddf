-- ===== src/Options/Settle.antt =====
-- What `arping_main` makes of the options before it looks at the target: the options that exclude each
-- other, the addresses given, and the VLAN.
use arping.Prelude.{
  ℕ, Bool, true, false, not, ◌&&◌, ◌||◌, ◌==◌, ltb, Option, none, some, if◌then◌else◌, pos, negsuc,
  equal_ℤ, Text, codes, str_eq,
}
use arping.State.{dot, message, Globals, print, note, uint_max}
use arping.Mac.Scan.{get_mac_addr}
use arping.Options.{no_mode, pingmac, pingip, Locals, in_range, ip_broadcast}
use arping.Stage.{Stage, Step, go_on, on, fail, at_srcip, at_dstip, Lookups, with_libnet}

abbrev pub given {ℓ} : {A : Type ℓ} → Option A → Bool
given none = false
given (some a) = true

-- The first test of the modes.
unfoldable pub conflict : Locals → Bool
conflict l = elim l.mode [
  | no_mode ↦ false
  | pingip ↦ l.opt_T
  | pingmac ↦ l.opt_B || given l.dstmac_opt || l.opt_U
]

unfoldable pub settle_srcmac : Stage → Step
settle_srcmac s = elim s.locals.srcmac_opt [
  | none ↦ go_on s
  | some text ↦ elim (get_mac_addr text) [
    | none ↦ fail s "arping: Weird MAC addr"
    | some m ↦ go_on (record s { globals = record s.globals { srcmac = m } })
  ]
]

unfoldable pub settle_dstmac : Stage → Step
settle_dstmac s = elim s.locals.dstmac_opt [
  | none ↦ go_on s
  | some text ↦ elim (get_mac_addr text) [
    | none ↦ fail s "Illegal MAC addr"
    | some m ↦ go_on (record s { globals = record s.globals { dstmac = m } })
  ]
]

-- `-Q` needs `-V`; without `-Q` the priority is 0.
unfoldable pub settle_prio : Globals → Globals
settle_prio g = if equal_ℤ g.vlan_prio (negsuc 0) then record g { vlan_prio = pos 0 } else g

-- `-d` without `-c` sends three packets.
unfoldable pub settle_count : Bool → Locals → Locals
settle_count finddup l = if finddup && l.maxcount == uint_max then record l { maxcount = 3 } else l

-- `setvbuf` for the dots, and the message if it fails.
unfoldable pub unbuffer : Bool → Globals → Globals
unbuffer true g = g
unbuffer false g = elim g.display [
  | dot ↦ print g (message (codes "arping: setvbuf(stdout, NULL, IONBF, 0): "))
  | _ ↦ g
]

unfoldable pub settle_vlan : Bool → Stage → Step
settle_vlan setvbuf_ok s =
    let g = note (settle_prio s.globals) 1 "arping: Using gettimeofday() for time measurements" in
    if in_range 32767 s.globals.vlan_prio && equal_ℤ s.globals.vlan_tag (negsuc 0)
    then fail s "arping: -Q requires the use of 802.1Q (-V)"
    else go_on (record s {
      locals = settle_count s.globals.finddup s.locals;
      globals = unbuffer setvbuf_ok g;
    })

module _ (w : Lookups) where
  -- `xresolve`: the address, and whether it is one.
  unfoldable pub xresolve : Text → ℕ × Bool
  xresolve name =
      if str_eq ip_broadcast name
      then (uint_max, true)
      else (w.resolve name, not (w.resolve name == uint_max))

  unfoldable pub resolve_srcip : Text → Stage → Step
  resolve_srcip text s =
      let (addr, ok) = xresolve text in
      if ok
      then go_on (record s { globals = record s.globals { srcip = addr } })
      else fail s "arping: Can't resolve"

  unfoldable pub settle_srcip : Stage → Step
  settle_srcip s = elim s.locals.srcip_opt [
    | none ↦ go_on s
    | some text ↦ with_libnet w at_srcip s (resolve_srcip text)
  ]

  unfoldable pub resolve_dstip : Text → Stage → Step
  resolve_dstip text s =
      let (addr, ok) = xresolve text in
      if ok
      then go_on (record s { globals = record s.globals { dstip = addr } })
      else fail s "arping: Can't resolve"

  unfoldable pub settle_dstip : Stage → Step
  settle_dstip s = elim s.locals.dstip_opt [
    | none ↦ go_on s
    | some text ↦ with_libnet w at_dstip s (resolve_dstip text)
  ]

  -- The addresses that the options give, and the VLAN.
  unfoldable pub addresses : Stage → Step
  addresses s = on (settle_srcmac s) (λ s1.
      on (settle_dstmac s1)
        (λ s2. on (settle_srcip s2) (λ s3. on (settle_dstip s3) (settle_vlan w.setvbuf_ok))))

  -- `rest` is the number of arguments behind the options.
  unfoldable pub settle : ℕ → Stage → Step
  settle rest s =
      if ltb 1 rest
      then fail s "arping: Too many args on command line."
      else if conflict s.locals
      then fail s "arping: -T can only be used to ping MAC and -BtU only to ping IPs"
      else if s.locals.opt_T && s.locals.opt_B
      then fail s "arping: -B can't be used with -T, since they set the same thing"
      else addresses s
