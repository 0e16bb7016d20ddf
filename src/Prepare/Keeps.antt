-- ===== src/Prepare/Keeps.antt =====
-- The target, what `arping_main` has counted, -d and the VLAN tag are the same after the preparations as
-- before.
use arping.Prelude.{ℕ, ◌≡◌, ◌∙◌, ap, inl, inr, false, Option, none, some, Text, arith, Option-cases}
use arping.State.{Globals}
use arping.Options.{Locals}
use arping.Privileges.{Process}
use arping.Privileges.Quiet.{drop_privileges-IsQuiet}
use arping.GetMac.{Rts}
use arping.Stage.{at_interface}
use arping.Stage.Calls.{do_libnet_init-Noted}
use arping.Setup.{Net, started, exit_1, do_libnet_init, do_pcap_open_live}
use arping.Prepare.{
  World, Prepared, Ready, ready, after, drop, unblock, install, set_filter, own_address, capture,
  greet, own_mac, finish, open_capture, prepare, snaplen, to_ms,
}
use arping.Prepare.Steps.{after-ready, drop-ready, Ready-cases}

-- The target, the VLAN tag, -d, the count of the replies, and the mark of a duplicate.
pub record Same (g g' : Globals) : Type 0 where
  pub tag : g'.vlan_tag ≡ g.vlan_tag
  pub numrecvd : g'.numrecvd ≡ g.numrecvd
  pub dupfound : g'.dupfound ≡ g.dupfound
  pub finddup : g'.finddup ≡ g.finddup
  pub dstip : g'.dstip ≡ g.dstip
  pub dstmac : g'.dstmac ≡ g.dstmac

Same-fields :
    (g g' : Globals)
    → (g'.vlan_tag ≡ g.vlan_tag)
      × (g'.numrecvd ≡ g.numrecvd)
      × (g'.dupfound ≡ g.dupfound)
      × (g'.finddup ≡ g.finddup)
      × (g'.dstip ≡ g.dstip)
      × (g'.dstmac ≡ g.dstmac)
    → Same g g'
Same-fields g g' (tag, numrecvd, dupfound, finddup, dstip, dstmac) = record {
  tag = tag;
  numrecvd = numrecvd;
  dupfound = dupfound;
  finddup = finddup;
  dstip = dstip;
  dstmac = dstmac;
}

Same-trans : (g g1 g2 : Globals) → Same g g1 → Same g1 g2 → Same g g2
Same-trans g g1 g2 a b = record {
  tag = b.tag ∙ a.tag;
  numrecvd = b.numrecvd ∙ a.numrecvd;
  dupfound = b.dupfound ∙ a.dupfound;
  finddup = b.finddup ∙ a.finddup;
  dstip = b.dstip ∙ a.dstip;
  dstmac = b.dstmac ∙ a.dstmac;
}

-- The state that a step leaves, if it goes on.
abbrev Leaves : {P : Type 0} → Globals → Ready P → Type 0
Leaves {P = P} g x = (p : Prepared P) → x ≡ ready p → Same g p.globals

after-Leaves :
    {P : Type 0} (g : Globals) (x : Ready P) (k : Prepared P → Ready P)
    → Leaves g x
    → ((p : Prepared P) → Leaves p.globals (k p))
    → Leaves g (after x k)
after-Leaves g x k h rest p' q =
    let (p, e, r) = after-ready x k p' q in Same-trans g p.globals p'.globals (h p e) (rest p p' r)

module _ {P B : Type 0} (w : World P B) (l : Locals) where
  drop-Leaves : (p : Prepared P) → Leaves p.globals (drop w l p)
  drop-Leaves p p' q =
      let (r, e, s) = drop-ready w l p p' q in
      let quiet =
        drop_privileges-IsQuiet w.system l.drop_group
          (record { process = p.process; globals = p.globals }) r e in
      record {
        tag = ap (λ p. p.globals.vlan_tag) s ∙ ap (λ g. g.vlan_tag) quiet.same;
        numrecvd = ap (λ p. p.globals.numrecvd) s ∙ ap (λ g. g.numrecvd) quiet.same;
        dupfound = ap (λ p. p.globals.dupfound) s ∙ ap (λ g. g.dupfound) quiet.same;
        finddup = ap (λ p. p.globals.finddup) s ∙ ap (λ g. g.finddup) quiet.same;
        dstip = ap (λ p. p.globals.dstip) s ∙ ap (λ g. g.dstip) quiet.same;
        dstmac = ap (λ p. p.globals.dstmac) s ∙ ap (λ g. g.dstmac) quiet.same;
      }

  unblock-Leaves : (p : Prepared P) → Leaves p.globals (unblock w l p)
  unfolding unblock
  unblock-Leaves p p' q = Same-fields _ _ (ground arith)

  set_filter-Leaves : (p : Prepared P) → Leaves p.globals (set_filter w l p)
  unfolding set_filter install
  set_filter-Leaves p p' q = Same-fields _ _ (ground arith)

  own_address-Leaves : (p : Prepared P) → Leaves p.globals (own_address w l p)
  unfolding own_address
  own_address-Leaves p p' q = Same-fields _ _ (ground arith)

  capture-Leaves : (p : Prepared P) → Leaves p.globals (capture w l p)
  unfolding capture
  capture-Leaves p = after-Leaves p.globals _ _ (drop-Leaves p) (λ p1.
      after-Leaves p1.globals _ _ (unblock-Leaves p1)
        (λ p2. after-Leaves p2.globals _ _ (set_filter-Leaves p2) own_address-Leaves))

  own_mac-Same :
      (fuel : ℕ) (ifname : Text) (p p' : Prepared P)
      → own_mac w l fuel ifname p ≡ some p'
      → Same p.globals p'.globals
  unfolding own_mac
  own_mac-Same fuel ifname p p' q = Same-fields _ _ (ground arith)

  greet-Leaves : (parm : Option Text) (p : Prepared P) → Leaves p.globals (greet w l parm p)
  unfolding greet
  greet-Leaves parm p p' q = Same-fields _ _ (ground arith)

  finish-Same :
      (fuel : ℕ) (ifname : Text) (parm : Option Text) (p p' : Prepared P)
      → finish w l fuel ifname parm p ≡ some (ready p')
      → Same p.globals p'.globals
  unfolding finish
  finish-Same fuel ifname parm p p' q = elim (Ready-cases (capture w l p)) [
    | inr (n, out, e) ↦ absurd (ground arith)
    | inl (p1, e) ↦ elim (Option-cases (own_mac w l fuel ifname p1)) [
      | inl f ↦ absurd (ground arith)
      | inr (p2, f) ↦ Same-trans p.globals p1.globals p'.globals (capture-Leaves p p1 e) (
          Same-trans p1.globals p2.globals p'.globals (own_mac-Same fuel ifname p1 p2 f)
            (greet-Leaves parm p2 p' (ground arith)))
    ]
  ]

  open_capture-Same :
      (fuel : ℕ) (ifname : Text) (parm : Option Text) (process : Process) (rts : Rts) (net : Net)
      (g : Globals) (p' : Prepared P)
      → open_capture w l fuel ifname parm process rts net g ≡ some (ready p')
      → Same g p'.globals
  unfolding open_capture
  open_capture-Same fuel ifname parm process rts net g p' q =
      elim (Option-cases
        (do_pcap_open_live (λ call name. w.pcap_open_live call name snaplen l.promisc to_ms)
          ifname).0) [
            | inl e ↦ absurd (ground arith)
            | inr (pcap, e) ↦
                finish-Same fuel ifname parm
                  (record {
                    net = net;
                    pcap = pcap;
                    process = process;
                    rts = rts;
                    on_sigint = λ g. none;
                    globals = g;
                  })
                  p' (ground arith)
          ]

  pub prepare-Same :
      (fuel : ℕ) (ifname : Text) (parm : Option Text) (process : Process) (rts : Rts) (net : Net)
      (g : Globals) (p' : Prepared P)
      → prepare w l fuel ifname parm process rts net g ≡ some (ready p')
      → Same g p'.globals
  unfolding prepare
  prepare-Same fuel ifname parm process rts net g p' q =
      elim (Option-cases
        (do_libnet_init fuel (w.answers at_interface) w.unprivileged (some ifname) false net g)) [
          | inl e ↦ absurd (ground arith)
          | inr (exit_1 o, e) ↦ absurd (ground arith)
          | inr (started up g1, e) ↦
              let noted =
                do_libnet_init-Noted fuel (w.answers at_interface) w.unprivileged (some ifname) net
                  g up g1 e in
              Same-trans g g1 p'.globals
                (record {
                  tag = ap (λ g. g.vlan_tag) noted;
                  numrecvd = ap (λ g. g.numrecvd) noted;
                  dupfound = ap (λ g. g.dupfound) noted;
                  finddup = ap (λ g. g.finddup) noted;
                  dstip = ap (λ g. g.dstip) noted;
                  dstmac = ap (λ g. g.dstmac) noted;
                })
                (open_capture-Same fuel ifname parm process rts up g1 p' (ground arith))
        ]
