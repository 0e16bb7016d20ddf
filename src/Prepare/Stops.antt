-- ===== src/Prepare/Stops.antt =====
-- The preparations stop with the status 1 only.
use arping.Prelude.{
  ℕ, ◌≡◌, refl, inl, inr, false, Option, none, some, List, Text, arith, Option-cases,
}
use arping.State.{Output, Globals}
use arping.Options.{Locals}
use arping.Stage.{at_interface}
use arping.Privileges.{Process}
use arping.GetMac.{Rts}
use arping.Setup.{Net, started, exit_1, do_libnet_init, do_pcap_open_live}
use arping.Prepare.{
  World, Prepared, ready, stopped, finish, open_capture, prepare, capture, own_mac, greet, snaplen,
  to_ms,
}
use arping.Prepare.Steps.{capture-Stops, Ready-cases}

module _ {P B : Type 0} (w : World P B) (l : Locals) (fuel : ℕ) (ifname : Text)
    (parm : Option Text) where
  greet-ready : (p : Prepared P) → (p' : Prepared P) × (greet w l parm p ≡ ready p')
  unfolding greet
  greet-ready p = (_, refl)

  finish-stopped :
      (p : Prepared P) (n : ℕ) (out : List Output)
      → finish w l fuel ifname parm p ≡ some (stopped n out)
      → n ≡ 1
  unfolding finish
  finish-stopped p n out q = elim (Ready-cases (capture w l p)) [
    | inr (m, o, e) ↦ ground (arith, capture-Stops w l p m o)
    | inl (p1, e) ↦ elim (Option-cases (own_mac w l fuel ifname p1)) [
      | inl f ↦ absurd (ground arith)
      | inr (p2, f) ↦ let (p3, r) = greet-ready p2 in absurd (ground arith)
    ]
  ]

  open_capture-stopped :
      (process : Process) (rts : Rts) (net : Net) (g : Globals) (n : ℕ) (out : List Output)
      → open_capture w l fuel ifname parm process rts net g ≡ some (stopped n out)
      → n ≡ 1
  unfolding open_capture
  open_capture-stopped process rts net g n out q =
      elim (Option-cases
        (do_pcap_open_live (λ call name. w.pcap_open_live call name snaplen l.promisc to_ms)
          ifname).0) [
            | inl e ↦ ground arith
            | inr (pcap, e) ↦
                finish-stopped
                  (record {
                    net = net;
                    pcap = pcap;
                    process = process;
                    rts = rts;
                    on_sigint = λ g. none;
                    globals = g;
                  })
                  n out (ground arith)
          ]

  pub prepare-stopped :
      (process : Process) (rts : Rts) (net : Net) (g : Globals) (n : ℕ) (out : List Output)
      → prepare w l fuel ifname parm process rts net g ≡ some (stopped n out)
      → n ≡ 1
  unfolding prepare
  prepare-stopped process rts net g n out q =
      elim (Option-cases
        (do_libnet_init fuel (w.answers at_interface) w.unprivileged (some ifname) false net g)) [
          | inl e ↦ absurd (ground arith)
          | inr (started up g1, e) ↦ open_capture-stopped process rts up g1 n out (ground arith)
          | inr (exit_1 o, e) ↦ ground arith
        ]
