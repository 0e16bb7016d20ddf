-- ===== src/Prepare/Confined.antt =====
-- The preparations of a program that root has started.
use arping.Prelude.{
  ℕ, ◌≡◌, ◌≢◌, inl, inr, sym, ◌∙◌, ◌++◌, Option, none, some, [], Text, codes, arith, Option-cases,
}
use arping.State.{Globals, sigint}
use arping.Options.{Locals}
use arping.Setup.{Net, do_pcap_open_live}
use arping.Setup.Lives.{IsNet}
use arping.Privileges.{Process, Passwd, Running, pick_group, drop_privileges}
use arping.Privileges.Group.{group}
use arping.Privileges.Dropped.{RootMay, drop_privileges-drops}
use arping.GetMac.{Rts}
use arping.Prepare.{World, Prepared, Ready, ready, stopped, snaplen, to_ms, prepare}
use arping.Prepare.Steps.{IsFiltered, HasAddress, IsDropped}
use arping.Prepare.Greeted.{HasMac}
use arping.Prepare.Begins.{Outcome, prepare-Outcome}

-- The capture that a call has opened: on the interface, or on one of its names under /dev.
pub data IsOpen {P : Type 0} (pcap_open_live : ℕ → Text → Option P × Text) (ifname : Text)
    (opened : P) : Type 0 where
  as_named : (pcap_open_live 0 ifname).0 ≡ some opened → IsOpen pcap_open_live ifname opened
  in_dev :
      (pcap_open_live 0 ifname).0 ≡ none
      → (pcap_open_live 1 (codes "/dev/" ++ ifname)).0 ≡ some opened
      → IsOpen pcap_open_live ifname opened
  in_dev_net :
      (pcap_open_live 0 ifname).0 ≡ none
      → (pcap_open_live 1 (codes "/dev/" ++ ifname)).0 ≡ none
      → (pcap_open_live 2 (codes "/dev/net/" ++ ifname)).0 ≡ some opened
      → IsOpen pcap_open_live ifname opened
  named_again :
      (pcap_open_live 0 ifname).0 ≡ none
      → (pcap_open_live 1 (codes "/dev/" ++ ifname)).0 ≡ none
      → (pcap_open_live 2 (codes "/dev/net/" ++ ifname)).0 ≡ none
      → (pcap_open_live 3 ifname).0 ≡ some opened
      → IsOpen pcap_open_live ifname opened

do_pcap_open_live-IsOpen :
    {P : Type 0} (pcap_open_live : ℕ → Text → Option P × Text) (ifname : Text) (opened : P)
    → (do_pcap_open_live pcap_open_live ifname).0 ≡ some opened
    → IsOpen pcap_open_live ifname opened
unfolding do_pcap_open_live
do_pcap_open_live-IsOpen pcap_open_live ifname opened q =
    elim (Option-cases (pcap_open_live 0 ifname).0) [
      | inr (p, e) ↦ as_named (ground arith)
      | inl e ↦ elim (Option-cases (pcap_open_live 1 (codes "/dev/" ++ ifname)).0) [
        | inr (p, e1) ↦ in_dev e (ground arith)
        | inl e1 ↦ elim (Option-cases (pcap_open_live 2 (codes "/dev/net/" ++ ifname)).0) [
          | inr (p, e2) ↦ in_dev_net e e1 (ground arith)
          | inl e2 ↦ named_again e e1 e2 (ground arith)
        ]
      ]
    ]

module _ {P B : Type 0} (w : World P B) (l : Locals) where
  -- The state when the packets begin.
  pub record IsConfined (fuel : ℕ) (ifname : Text) (after : Process) (p : Prepared P) : Type 0 where
    pub libnet : (p.net.libnet ≢ 0) × IsNet fuel p.net
    pub opened : P
    pub open_now :
        IsOpen (λ call name. w.pcap_open_live call name snaplen l.promisc to_ms) ifname opened
    pub process : p.process ≡ after
    pub filter : IsFiltered w l opened p.globals.vlan_tag p.pcap
    pub address : HasAddress w l p.globals
    pub signal : (g : Globals) → p.on_sigint g ≡ some (sigint g)

  -- Prepared, or stopped with the status 1.
  abbrev pub Ends : ℕ → Text → Process → Ready P → Type 0
  Ends fuel ifname after (ready p) = IsConfined fuel ifname after p
  Ends fuel ifname after (stopped status out) = status ≡ 1

  dropped-process :
      (before now after : Process)
      → IsDropped w l before now
      → ((g : Globals)
          → (r : Running) × (drop_privileges w.system l.drop_group
                (record { process = before; globals = g })
              ≡ some r)
            × (r.process ≡ after))
      → now ≡ after
  dropped-process before now after (g, g', e) drops =
      let (r, q, same) = drops g in
      let one : some (record { process = now; globals = g' }) ≡ some r = sym e ∙ q in ground arith

  Outcome-Ends :
      (fuel : ℕ) (ifname : Text) (before after : Process) (r : Ready P)
      → ((now : Process) → IsDropped w l before now → now ≡ after)
      → Outcome w l fuel ifname before r
      → Ends fuel ifname after r
  Outcome-Ends fuel ifname before after (stopped status out) drops one = one
  Outcome-Ends fuel ifname before after (ready p) drops o = record {
    libnet = o.libnet;
    opened = o.opened;
    open_now = do_pcap_open_live-IsOpen _ ifname o.opened o.open_now;
    process = drops p.process o.dropped;
    filter = o.filter;
    address = o.address;
    signal = o.signal;
  }

  -- Started as root, which the kernel allows every call, on a system with the users sshd and nobody, with no
  -- 0 for the id of nobody or for the group, which is that of -g if there is one; with `libnet` NULL or a
  -- handle on the heap, and where `get_mac` faults nowhere or -s is given: the steps from the interface to
  -- the first packet fault nowhere, whatever else is answered. They end the program with the status 1, or
  -- leave this: `libnet` is a handle on the heap; the capture was opened on the interface, or one of its
  -- names under /dev after the plain name had failed, and does not block; the process has the ids of nobody
  -- and of the group, no supplementary group, and the directory of sshd as its root and directory; without
  -- a tag the filter installed is "arp" for an IP address and "icmp" for a MAC address, and with a tag none
  -- is installed; the source address was given or is the own one, which is known; and SIGINT runs `sigint`.
  pub prepare-Ends :
      (fuel : ℕ) (ifname : Text) (parm : Option Text) (process : Process) (rts : Rts) (net : Net)
      (g : Globals) (sshd other : Passwd) (gid : ℕ)
      → IsNet fuel net
      → HasMac w l fuel ifname
      → RootMay w.system
      → process.uid ≡ 0
      → w.system.getpwnam (codes "sshd") ≡ some sshd
      → w.system.getpwnam (codes "nobody") ≡ some other
      → pick_group w.system l.drop_group other.pw_gid ≡ group gid
      → other.pw_uid ≢ 0
      → gid ≢ 0
      → (r : Ready P) × (prepare w l fuel ifname parm process rts net g ≡ some r)
        × Ends fuel ifname
            (record {
              uid = other.pw_uid;
              gid = gid;
              groups = [];
              cwd = sshd.pw_dir;
              root = sshd.pw_dir;
            })
            r
  prepare-Ends fuel ifname parm process rts net g sshd other gid h mac may root s n chosen u nz =
      let (r, e, outcome) = prepare-Outcome w l fuel ifname parm process rts net g h mac in
      (
        r,
        e,
        Outcome-Ends fuel ifname process _ r
            (λ now dropped. dropped-process process now _ dropped (λ g0.
              drop_privileges-drops w.system (record { process = process; globals = g0 }) sshd other
                l.drop_group gid may root s n chosen u nz))
            outcome,
      )
