-- ===== src/Prepare.antt =====
-- `arping_main` of arping.c from the known interface to the first packet: libnet, the capture of libpcap,
-- the privileges, the filter, and the own addresses. What libpcap and libnet answer is a parameter, for
-- which `P` are captures and `B` compiled filters.
pub mod Greeted
pub mod Stops
pub mod Filter
pub mod Steps
pub mod Begins
pub mod Confined
pub mod Keeps
use Prim.Native.String.{String}
use arping.Prelude.{
  ℕ, zero, suc, ◌+◌, ◌/◌, ◌%◌, Bool, true, false, not, Option, none, some, List, [], ◌∷◌, ◌++◌,
  ◌==◌, if◌then◌else◌, ℤ, pos, negsuc, Text, codes, ltb,
}
use arping.Host.Order.{◌>>=◌}
use arping.State.{Display, normal, Output, message, Globals, sigint, print, note, uint_max}
use arping.Mac.{EthAddr}
use arping.Options.{Target, pingip, Locals}
use arping.Options.Settle.{given}
use arping.Choose.{is_pingip}
use arping.Handle.{Answers}
use arping.Stage.{Site, at_interface}
use arping.Setup.{Net, Started, started, exit_1, do_libnet_init, do_pcap_open_live}
use arping.Privileges.{Process, System, Running, nobody, drop_privileges}
use arping.GetMac.{Rtslib, Rts, get_mac}

-- The digits of `%u`, in front of those behind; the fuel is for their number.
unfoldable pub digits : ℕ → ℕ → Text → Text
digits zero n behind = behind
digits (suc fuel) n behind =
    let rest = digits fuel (n / 10) ((b'0' + n % 10) ∷ behind) in
    if ltb n 10 then (b'0' + n) ∷ behind else rest

-- A 32-bit number has at most ten digits.
unfoldable pub unsigned_text : ℕ → Text
unsigned_text n = digits 10 n []

-- What is captured.
unfoldable pub protocol : Target → Text
protocol t = if is_pingip t then codes "arp" else codes "icmp"

-- `bpf_filter`.
unfoldable pub filter_text : Target → ℤ → Text
filter_text t (pos tag) = codes "vlan " ++ unsigned_text tag ++ codes " and " ++ protocol t
filter_text t (negsuc n) = protocol t

-- The number is that of the call among those of `do_pcap_open_live`; `own_ip` is for the handle that a call
-- of `do_libnet_init` has left.
pub record World (P B : Type 0) : Type 0 where
  pub answers : Site → Option Text → Answers
  pub unprivileged : Bool
  pub pcap_open_live : ℕ → Text → ℕ → Bool → ℕ → Option P × Text
  pub pcap_setnonblock : P → Option P
  pub pcap_compile : P → Text → Option B
  pub pcap_setfilter : P → B → Option P
  pub own_ip : Site → ℕ
  pub name_of : ℕ → Text
  pub rtslib : Rtslib
  pub system : System

-- The state when the packets begin. `on_sigint` is what the signal does: without a handler it ends the
-- process.
pub record Prepared (P : Type 0) : Type 0 where
  pub net : Net
  pub pcap : P
  pub process : Process
  pub rts : Rts
  pub on_sigint : Globals → Option Globals
  pub globals : Globals

-- The state, or the end of the program with a status.
pub data Ready (P : Type 0) : Type 0 where
  ready : Prepared P → Ready P
  stopped : ℕ → List Output → Ready P

abbrev pub after : {P : Type 0} → Ready P → (Prepared P → Ready P) → Ready P
after (ready p) k = k p
after (stopped status out) k = stopped status out

abbrev pub stop : {P : Type 0} → Globals → String → Ready P
stop g s = stopped 1 (print g (message (codes s))).out

abbrev pub set_globals : {P : Type 0} → Prepared P → Globals → Prepared P
set_globals p g = record p { globals = g }

unfoldable pub is_normal : Display → Bool
is_normal normal = true
is_normal _ = false

abbrev pub snaplen : ℕ
snaplen = 100

abbrev pub to_ms : ℕ
to_ms = 1000

module _ {P B : Type 0} (w : World P B) (l : Locals) where
  -- `drop_privileges(drop_group)`, which may call `exit(1)`, with one message for the two of
  -- `must_get_group`.
  unfoldable pub drop : Prepared P → Ready P
  drop p =
      let r : Running = record { process = p.process; globals = p.globals } in
      elim (drop_privileges w.system l.drop_group r) [
        | some r1 ↦ ready (record p { process = r1.process; globals = r1.globals })
        | none ↦
            stop (nobody w.system (w.system.getpwnam (codes "nobody")) r).2.globals
              "arping: is not a number or group"
      ]

  unfoldable pub unblock : Prepared P → Ready P
  unblock p = elim (w.pcap_setnonblock p.pcap) [
    | some pcap ↦
        ready (record p {
          pcap = pcap;
          globals = note p.globals 1 "arping: pcap_get_selectable_fd(): ";
        })
    | none ↦ stop p.globals "arping: pcap_set_nonblock(): "
  ]

  -- The filter is compiled always, and installed only without a tag.
  unfoldable pub install : B → Prepared P → Ready P
  install bp p = elim p.globals.vlan_tag [
    | pos tag ↦ ready p
    | negsuc n ↦ elim (w.pcap_setfilter p.pcap bp) [
      | some pcap ↦ ready (record p { pcap = pcap })
      | none ↦ stop p.globals "arping: pcap_setfilter(): "
    ]
  ]

  unfoldable pub set_filter : Prepared P → Ready P
  set_filter p = elim (w.pcap_compile p.pcap (filter_text l.mode p.globals.vlan_tag)) [
    | some bp ↦ install bp p
    | none ↦ stop p.globals "arping: pcap_compile("
  ]

  -- `if (srcip_opt == NULL)`; -1 is an error.
  unfoldable pub own_address : Prepared P → Ready P
  own_address p =
      if given l.srcip_opt
      then ready p
      else if w.own_ip at_interface == uint_max
      then stop p.globals "arping: Unable to get the IPv4 address of interface "
      else ready (record p { globals = record p.globals { srcip = w.own_ip at_interface } })

  -- `do_signal_init`, and the two messages.
  -- Of unix.c: `sigint` is what SIGINT does.
  abbrev pub do_signal_init : Prepared P → Prepared P
  do_signal_init p = record p { on_sigint = λ g. some (sigint g) }

  unfoldable pub greet : Option Text → Prepared P → Ready P
  greet parm p =
      let g = note p.globals 0 "This box:   Interface: " in
      ready (record (do_signal_init p) {
        globals = if is_normal g.display then print g (message (codes "ARPING ")) else g;
      })

  -- `if (srcmac_opt == NULL)`: `get_mac` returns no NULL, but `none` is a fault in it.
  unfoldable pub own_mac : ℕ → Text → Prepared P → Option (Prepared P)
  own_mac fuel ifname p = if given l.srcmac_opt then some p else do
    (mac, rts) ← get_mac w.rtslib fuel ifname p.rts
    some (record p { rts = rts; globals = record p.globals { srcmac = mac } })

  -- The steps up to the own IP address.
  unfoldable pub capture : Prepared P → Ready P
  capture p = after (drop p) (λ p1. after (unblock p1) (λ p2. after (set_filter p2) own_address))

  -- With libnet and the capture open.
  unfoldable pub finish : ℕ → Text → Option Text → Prepared P → Option (Ready P)
  finish fuel ifname parm p = elim (capture p) [
    | ready p1 ↦ do p2 ← own_mac fuel ifname p1; some (greet parm p2)
    | stopped status out ↦ some (stopped status out)
  ]

  unfoldable pub open_capture :
      ℕ → Text → Option Text → Process → Rts → Net → Globals → Option (Ready P)
  open_capture fuel ifname parm process rts net g =
      elim (do_pcap_open_live (λ call name. w.pcap_open_live call name snaplen l.promisc to_ms)
        ifname).0 [
          | some pcap ↦ finish fuel ifname parm (record {
            net = net;
            pcap = pcap;
            process = process;
            rts = rts;
            on_sigint = λ g. none;
            globals = g;
          })
          | none ↦ some (stop g "arping: pcap_open_live(): ")
        ]

  -- The blocks of a handle and the stack of interfaces have fuel.
  unfoldable pub prepare : ℕ → Text → Option Text → Process → Rts → Net → Globals → Option (Ready P)
  prepare fuel ifname parm process rts net g = do
    r ← do_libnet_init fuel (w.answers at_interface) w.unprivileged (some ifname) false net g
    elim r [
      | started up g1 ↦ open_capture fuel ifname parm process rts up g1
      | exit_1 out ↦ some (stopped 1 out)
    ]
