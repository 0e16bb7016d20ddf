-- ===== src/Prepare/Begins.antt =====
-- What holds when the packets begin.
use arping.Prelude.{
  ℕ, ◌≡◌, ◌≢◌, inl, inr, ◌∙◌, ap, subst, sym, refl, false, Option, none, some, List, Text, arith,
  Option-cases,
}
use arping.State.{Globals, sigint, Output}
use arping.Options.{Locals}
use arping.Stage.{at_interface}
use arping.Setup.{Net, Started, started, exit_1, do_libnet_init, do_pcap_open_live}
use arping.Setup.Lives.{IsNet, IsUp, do_libnet_init-IsUp}
use arping.Privileges.{Process}
use arping.GetMac.{Rts}
use arping.Prepare.{
  World, Prepared, Ready, ready, stopped, stop, snaplen, to_ms, greet, own_mac, capture, finish,
  open_capture, prepare,
}
use arping.Prepare.Steps.{
  IsFiltered, HasAddress, IsDropped, Ready-cases, capture-ready, capture-Stops,
}
use arping.Prepare.Greeted.{HasMac, own_mac-returns, greet-IsGreeted}

module _ {P B : Type 0} (w : World P B) (l : Locals) where
  -- The state when the packets begin.
  pub record IsPrepared (fuel : ℕ) (ifname : Text) (before : Process) (p : Prepared P)
      : Type 0 where
    pub libnet : (p.net.libnet ≢ 0) × IsNet fuel p.net
    pub opened : P
    pub open_now :
        (do_pcap_open_live
          (λ call name. w.pcap_open_live call name snaplen l.promisc to_ms)
          ifname).0
        ≡ some opened
    pub dropped : IsDropped w l before p.process
    pub filter : IsFiltered w l opened p.globals.vlan_tag p.pcap
    pub address : HasAddress w l p.globals
    pub signal : (g : Globals) → p.on_sigint g ≡ some (sigint g)

  -- Prepared, or stopped with the status 1.
  abbrev pub Outcome : ℕ → Text → Process → Ready P → Type 0
  Outcome fuel ifname before (ready p) = IsPrepared fuel ifname before p
  Outcome fuel ifname before (stopped status out) = status ≡ 1

  finish-ready :
      (fuel : ℕ) (ifname : Text) (parm : Option Text) (p p1 p2 : Prepared P)
      → capture w l p ≡ ready p1
      → own_mac w l fuel ifname p1 ≡ some p2
      → finish w l fuel ifname parm p ≡ some (greet w l parm p2)
  unfolding finish
  finish-ready fuel ifname parm p p1 p2 e own = ground arith

  finish-stopped :
      (fuel : ℕ) (ifname : Text) (parm : Option Text) (p : Prepared P) (n : ℕ) (out : List Output)
      → capture w l p ≡ stopped n out
      → finish w l fuel ifname parm p ≡ some (stopped n out)
  unfolding finish
  finish-stopped fuel ifname parm p n out e = ground arith

  finish-Outcome :
      (fuel : ℕ) (ifname : Text) (parm : Option Text) (p : Prepared P)
      → HasMac w l fuel ifname
      → (p.net.libnet ≢ 0) × IsNet fuel p.net
      → (do_pcap_open_live
          (λ call name. w.pcap_open_live call name snaplen l.promisc to_ms)
          ifname).0
        ≡ some p.pcap
      → (r : Ready P) × (finish w l fuel ifname parm p ≡ some r) × Outcome fuel ifname p.process r
  finish-Outcome fuel ifname parm p mac up open_now = elim (Ready-cases (capture w l p)) [
    | inl (p1, e) ↦
        let ((g, g', dropped), filter, address, net, rts) = capture-ready w l p p1 e in
        let (p2, own, same) = own_mac-returns w l fuel ifname p1 mac in
        let (p3, e3, greeted) = greet-IsGreeted w l parm p2 in
        let net3 : p3.net ≡ p.net = greeted.net ∙ ap (λ q. q.net) same ∙ net in
        let process3 : p3.process ≡ p1.process = greeted.process ∙ ap (λ q. q.process) same in
        let tag3 : p3.globals.vlan_tag ≡ p1.globals.vlan_tag =
          greeted.tag ∙ ap (λ q. q.globals.vlan_tag) same in
        let pcap3 : p3.pcap ≡ p1.pcap = greeted.pcap ∙ ap (λ q. q.pcap) same in
        let srcip3 : p3.globals.srcip ≡ p1.globals.srcip =
          greeted.srcip ∙ ap (λ q. q.globals.srcip) same in
        (
          ready p3,
          finish-ready fuel ifname parm p p1 p2 e own ∙ ap some e3,
          record {
            libnet = subst (λ n. (n.libnet ≢ 0) × IsNet fuel n) (sym net3) up;
            opened = p.pcap;
            open_now = open_now;
            dropped = (
              g,
              g',
              dropped ∙ ap (λ q. some (record { process = q; globals = g' })) (sym process3),
            );
            filter =
                subst (λ t. IsFiltered w l p.pcap t p3.pcap) (sym tag3)
                  (subst (IsFiltered w l p.pcap p1.globals.vlan_tag) (sym pcap3) filter);
            address = elim address [ inl s ↦ inl s | inr (s, n) ↦ inr (srcip3 ∙ s, n) ];
            signal = greeted.signal;
          },
        )
    | inr (n, out, e) ↦
        (stopped n out, finish-stopped fuel ifname parm p n out e, capture-Stops w l p n out e)
  ]

  open_capture-none :
      (fuel : ℕ) (ifname : Text) (parm : Option Text) (process : Process) (rts : Rts) (net : Net)
      (g : Globals)
      → (do_pcap_open_live
          (λ call name. w.pcap_open_live call name snaplen l.promisc to_ms)
          ifname).0
        ≡ none
      → open_capture w l fuel ifname parm process rts net g
        ≡ some (stop g "arping: pcap_open_live(): ")
  unfolding open_capture
  open_capture-none fuel ifname parm process rts net g e = ground arith

  open_capture-some :
      (fuel : ℕ) (ifname : Text) (parm : Option Text) (process : Process) (rts : Rts) (net : Net)
      (g : Globals) (pcap : P)
      → (do_pcap_open_live
          (λ call name. w.pcap_open_live call name snaplen l.promisc to_ms)
          ifname).0
        ≡ some pcap
      → open_capture w l fuel ifname parm process rts net g
        ≡ finish w l fuel ifname parm (record {
          net = net;
          pcap = pcap;
          process = process;
          rts = rts;
          on_sigint = λ g. none;
          globals = g;
        })
  unfolding open_capture
  open_capture-some fuel ifname parm process rts net g pcap e = ground arith

  open_capture-Outcome :
      (fuel : ℕ) (ifname : Text) (parm : Option Text) (process : Process) (rts : Rts) (net : Net)
      (g : Globals)
      → HasMac w l fuel ifname
      → (net.libnet ≢ 0) × IsNet fuel net
      → (r : Ready P) × (open_capture w l fuel ifname parm process rts net g ≡ some r)
        × Outcome fuel ifname process r
  open_capture-Outcome fuel ifname parm process rts net g mac up =
      elim (Option-cases
        (do_pcap_open_live (λ call name. w.pcap_open_live call name snaplen l.promisc to_ms)
          ifname).0) [
            | inl e ↦ (
              stop g "arping: pcap_open_live(): ",
              open_capture-none fuel ifname parm process rts net g e,
              refl,
            )
            | inr (pcap, e) ↦
                let (r, returned, outcome) =
                  finish-Outcome fuel ifname parm
                    (record {
                      net = net;
                      pcap = pcap;
                      process = process;
                      rts = rts;
                      on_sigint = λ g. none;
                      globals = g;
                    })
                    mac up e in
                (r, open_capture-some fuel ifname parm process rts net g pcap e ∙ returned, outcome)
          ]

  -- Called with `libnet` NULL or a handle on the heap, and where `get_mac` faults nowhere or -s is
  -- given, the steps from the interface to the first packet fault nowhere, whatever else is answered.
  -- They end the program with the status 1, or leave this: `libnet` is a handle on the heap; the
  -- capture was opened on the interface, or one of its names under /dev, and does not block; the
  -- process is what `drop_privileges` left; without a tag the filter of the mode is installed on
  -- the capture, and with a tag none is; the source address was given or is the own one, which is known;
  -- and SIGINT runs `sigint`.
  pub prepare-Outcome :
      (fuel : ℕ) (ifname : Text) (parm : Option Text) (process : Process) (rts : Rts) (net : Net)
      (g : Globals)
      → IsNet fuel net
      → HasMac w l fuel ifname
      → (r : Ready P) × (prepare w l fuel ifname parm process rts net g ≡ some r)
        × Outcome fuel ifname process r
  unfolding prepare
  prepare-Outcome fuel ifname parm process rts net g h mac =
      let (s, e, up) =
        do_libnet_init-IsUp fuel (w.answers at_interface) w.unprivileged (some ifname) net g h in
      begin s e up
    where
      begin :
          (s : Started)
          → do_libnet_init fuel (w.answers at_interface) w.unprivileged (some ifname) false net g
            ≡ some s
          → IsUp fuel s
          → (r : Ready P) × (prepare w l fuel ifname parm process rts net g ≡ some r)
            × Outcome fuel ifname process r
      begin (exit_1 out) e up = (stopped 1 out, rw e refl, refl)
      begin (started net1 g1) e up =
          let (r, returned, outcome) =
            open_capture-Outcome fuel ifname parm process rts net1 g1 mac up in
          (r, rw e returned, outcome)
