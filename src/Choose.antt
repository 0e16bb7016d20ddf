-- ===== src/Choose.antt =====
-- `arping_main` of arping.c from the options on: the mode, the target, and the interface.
pub mod Moves
pub mod Goal
pub mod Interface
use arping.Prelude.{
  ℕ, Bool, true, false, not, ◌&&◌, ◌||◌, Option, none, some, List, [], ◌∷◌, ◌++◌, if◌then◌else◌,
  Text, codes, str_eq,
}
use arping.Host.Order.{Endian}
use arping.State.{message, Globals, print, note}
use arping.Mac.{is_mac_addr}
use arping.Mac.Scan.{get_mac_addr}
use arping.Findif.{Ifaddr, arping_lookupdev}
use arping.Options.{Target, no_mode, pingmac, pingip, Locals}
use arping.Options.Settle.{given, xresolve}
use arping.Stage.{
  Stage, Step, go_on, on, fail, usage_1, at_self, at_mode, at_target, Lookups, with_libnet,
}

abbrev pub first_arg : List Text → Option Text
first_arg [] = none
first_arg (a ∷ args) = some a

unfoldable pub is_pingip : Target → Bool
is_pingip pingip = true
is_pingip _ = false

-- The own address as the target, with the message about it.
unfoldable pub target_self : ℕ → Stage → Step
target_self addr s = go_on (record s {
  locals = record s.locals { dstip_given = true };
  globals = note (record s.globals { dstip = addr }) 0 "defaulting to checking dup for ";
})

abbrev pub set_mode : Target → Stage → Stage
set_mode t s = record s { locals = record s.locals { mode = t } }

module _ (w : Lookups) (args : List Text) where
  -- `parm`; and -d without a target checks the own address.
  unfoldable pub check_self : Stage → Step
  check_self s =
      let s1 = record s { parm = first_arg args } in
      if s.globals.finddup && not (given (first_arg args))
      then with_libnet w at_self s1 (target_self (w.own_ip at_self))
      else go_on s1

  -- `strdup(libnet_addr2name4(dstip,0))`.
  abbrev pub dup_name : Globals → Option Text
  dup_name g = if w.strdup_ok then some (w.name_of g.dstip) else none

  -- PINGIP, of the address that is known.
  unfoldable pub name_target : Stage → Step
  name_target s =
      if w.strdup_ok
      then go_on (record (set_mode pingip s) { parm = some (w.name_of s.globals.dstip) })
      else fail s "arping: out of memory"

  -- Without a mode: that of the one argument, or PINGIP if the address is known.
  unfoldable pub pick_mode : Stage → Step
  pick_mode s = elim s.locals.mode [
    | no_mode ↦ elim args [
      | a ∷ [] ↦ go_on (set_mode (if is_mac_addr a then pingmac else pingip) s)
      | _ ↦ if s.locals.dstip_given then with_libnet w at_mode s name_target else go_on s
    ]
    | _ ↦ go_on s
  ]

  -- `if (!parm)`, `if (mode == NONE)`, and `do_libnet_init`.
  unfoldable pub need_target : Stage → Step
  need_target s = elim s.parm [
    | none ↦ usage_1 s
    | some p ↦ elim s.locals.mode [ no_mode ↦ usage_1 s | _ ↦ with_libnet w at_target s go_on ]
  ]

  -- `xresolve` of `parm`, and its name.
  unfoldable pub resolve_name : Text → Stage → Step
  resolve_name p s =
      let (addr, ok) = xresolve w p in
      let g = record s.globals { dstip = addr } in
      if ok
      then go_on (record s { globals = g; parm = dup_name g })
      else fail s "arping: Can't resolve "

  -- `mode == PINGIP && !dstip_given`. `parm` is not NULL here, by the test before.
  unfoldable pub resolve_target : Stage → Step
  resolve_target s = elim s.parm [
    | none ↦ go_on s
    | some p ↦
        if is_pingip s.locals.mode && not s.locals.dstip_given
        then (if is_mac_addr p
            then fail s
                "arping: Options given only apply to IP ping, but MAC address given as argument"
            else resolve_name p s)
        else go_on s
  ]

  unfoldable pub read_mac : Text → Stage → Step
  read_mac a s =
      if is_mac_addr a
      then elim (get_mac_addr a) [
        | some m ↦ go_on (record s { globals = record s.globals { dstmac = m } })
        | none ↦ fail s "arping: Illegal mac addr "
      ]
      else fail s
          "arping: Options given only apply to MAC ping, but no MAC address given as argument"

  -- `mode == PINGMAC`; `optind + 1 != argc` first.
  unfoldable pub parse_target : Stage → Step
  parse_target s = elim s.locals.mode [
    | pingmac ↦ elim args [ a ∷ [] ↦ read_mac a s | _ ↦ usage_1 s ]
    | _ ↦ go_on s
  ]

  -- `target = parm`. If `strdup` has failed this is NULL, for which the empty text stands.
  unfoldable pub set_target : Stage → Step
  set_target s =
      go_on (record s {
        globals = record s.globals { target = elim s.parm [ some p ↦ p | none ↦ [] ] };
      })

  unfoldable pub choose_target : Stage → Step
  choose_target s = on (check_self s) (λ s1. on (pick_mode s1) (λ s2.
      on (need_target s2) (λ s3. on (resolve_target s3) (λ s4. on (parse_target s4) set_target))))

-- What the two searches answer: the list of `getifaddrs` or its error text, the static buffer of
-- `arping_lookupdev`, and `pcap_lookupdev` with its error text.
pub record Devices : Type 0 where
  pub getifaddrs : Option (List Ifaddr)
  pub error : Text
  pub buffer : Text
  pub pcap_lookupdev : Option Text
  pub pcap_error : Text

-- A text printed if there is no interface.
unfoldable pub say_none : Option Text → Globals → Text → Globals
say_none none g s = print g (message s)
say_none (some name) g s = g

-- The warning about an interface that is probably not wanted.
unfoldable pub odd_interface : Text → Globals → Globals
odd_interface name g =
    if str_eq name (codes "ipsec") || str_eq name (codes "lo")
    then print (print g (message (codes "arping: Um.. ")))
        (message (codes "arping: using it anyway this time"))
    else g

module _ (e : Endian) (devices : Devices) where
  unfoldable pub lookup_lan : Globals → Option Text × Globals
  lookup_lan g =
      let found = arping_lookupdev e g.dstip devices.buffer devices.error devices.getifaddrs in
      (found.ret, say_none found.ret g (codes "arping: lookup dev: "))

  -- Of unix.c: the addresses are not looked at.
  abbrev pub arping_lookupdev_default : ℕ → ℕ → Option Text
  arping_lookupdev_default srcip dstip = devices.pcap_lookupdev

  unfoldable pub lookup_default : Bool → Globals → Option Text × Globals
  lookup_default unasked g = (
    arping_lookupdev_default g.srcip g.dstip,
    if given (arping_lookupdev_default g.srcip g.dstip) && not unasked
        then print g (
            message (
              codes
                "arping: Unable to automatically find interface to use. Is it on the local LAN?"))
        else g,
  )

  -- The second `if (!ifname)`.
  unfoldable pub or_default : Bool → Option Text → Globals → Option Text × Globals
  or_default unasked (some n) g = (some n, g)
  or_default unasked none g = lookup_default unasked g

  -- `if (!ifname)`.
  unfoldable pub find_interface : Stage → Step
  find_interface s = elim s.locals.ifname [
    | some name ↦ go_on s
    | none ↦
        let unasked = s.locals.dont_use_arping_lookupdev in
        let (lan, g1) = if unasked then (none, s.globals) else lookup_lan s.globals in
        let (name, g2) = or_default unasked lan g1 in
        elim name [
          | none ↦ fail (record s { globals = g2 }) "arping: Gave up looking for interface to use: "
          | some n ↦ go_on (record s {
            locals = record s.locals { ifname = some n };
            globals = odd_interface n g2;
          })
        ]
  ]
