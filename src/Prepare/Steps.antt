-- ===== src/Prepare/Steps.antt =====
-- The steps from the open capture to the own IP address.
use arping.Prelude.{
  sign, ℕ, ◌≡◌, ◌≢◌, ◌⊎◌, inl, inr, ◌∙◌, ap, sym, refl, true, some, List, Text, codes, ℤ, pos,
  negsuc, arith, Option-cases,
}
use arping.State.{Globals, uint_max, Output}
use arping.Choose.{is_pingip}
use arping.Options.{pingip, Locals}
use arping.Stage.{at_interface}
use arping.Options.Settle.{given}
use arping.Privileges.{Process, Running, drop_privileges}
use arping.Prepare.{
  filter_text, protocol, World, Prepared, Ready, ready, stopped, after, drop, unblock, install,
  set_filter, own_address, capture,
}

pub after-ready :
    {P : Type 0} (x : Ready P) (k : Prepared P → Ready P) (p' : Prepared P)
    → after x k ≡ ready p'
    → (p : Prepared P) × (x ≡ ready p) × (k p ≡ ready p')
after-ready (ready p) k p' q = (p, refl, q)
after-ready (stopped n out) k p' q = absurd (ground arith)

-- It stops with the status 1 only.
abbrev pub Stops : {P : Type 0} → Ready P → Type 0
Stops x = (status : ℕ) (out : List Output) → x ≡ stopped status out → status ≡ 1

after-Stops :
    {P : Type 0} (x : Ready P) (k : Prepared P → Ready P)
    → Stops x
    → ((p : Prepared P) → Stops (k p))
    → Stops (after x k)
after-Stops (ready p) k x_stops k_stops = k_stops p
after-Stops (stopped n out) k x_stops k_stops = x_stops

-- A computation that is ready, or has stopped.
pub Ready-cases :
    {P : Type 0} (x : Ready P)
    → ((p : Prepared P) × (x ≡ ready p)) ⊎ ((n : ℕ) × (out : List Output) × (x ≡ stopped n out))
Ready-cases (ready p) = inl (p, refl)
Ready-cases (stopped n out) = inr (n, out, refl)

module _ {P B : Type 0} (w : World P B) (l : Locals) where
  -- ARP packets for a ping of an IP address, and ICMP packets for one of a MAC address.
  abbrev pub IsFilter : Text → Type 0
  IsFilter text =
      ((l.mode ≡ pingip) × (text ≡ codes "arp")) ⊎ ((l.mode ≢ pingip) × (text ≡ codes "icmp"))

  filter_text-IsFilter : (n : ℕ) (z : ℤ) → z ≡ negsuc n → IsFilter (filter_text l.mode z)
  unfolding filter_text protocol is_pingip
  filter_text-IsFilter n z e = ground arith

  -- The capture is open and does not block; without a tag the filter is installed on it.
  pub data IsFiltered (opened : P) (tag : ℤ) (pcap : P) : Type 0 where
    filtered :
        (p1 : P) (text : Text) (bp : B) (n : ℕ)
        → tag ≡ negsuc n
        → IsFilter text
        → w.pcap_setnonblock opened ≡ some p1
        → w.pcap_compile p1 text ≡ some bp
        → w.pcap_setfilter p1 bp ≡ some pcap
        → IsFiltered opened tag pcap
    unfiltered :
        (n : ℕ) → tag ≡ pos n → w.pcap_setnonblock opened ≡ some pcap → IsFiltered opened tag pcap

  -- The source address was given, or is the own one, which is known.
  abbrev pub HasAddress : Globals → Type 0
  HasAddress g =
      (given l.srcip_opt ≡ true)
      ⊎ ((g.srcip ≡ w.own_ip at_interface) × (w.own_ip at_interface ≢ uint_max))

  abbrev pub IsDropped : Process → Process → Type 0
  IsDropped before now =
      (g : Globals) × (g' : Globals) × (drop_privileges w.system l.drop_group
          (record { process = before; globals = g })
        ≡ some (record { process = now; globals = g' }))

  pub drop-ready :
      (p p' : Prepared P)
      → drop w l p ≡ ready p'
      → (r : Running) × (drop_privileges w.system l.drop_group
            (record { process = p.process; globals = p.globals })
          ≡ some r)
        × (p' ≡ record p { process = r.process; globals = r.globals })
  unfolding drop
  drop-ready p p' q =
      elim (Option-cases (
        drop_privileges w.system l.drop_group
          (record { process = p.process; globals = p.globals }))) [
            | inl e ↦ absurd (ground arith)
            | inr (r, e) ↦ (r, e, ground arith)
          ]

  unblock-ready :
      (p p' : Prepared P)
      → unblock w l p ≡ ready p'
      → (pcap : P) × (g : Globals) × (w.pcap_setnonblock p.pcap ≡ some pcap)
        × (p' ≡ record p { pcap = pcap; globals = g })
        × (g.vlan_tag ≡ p.globals.vlan_tag)
  unfolding unblock
  unblock-ready p p' q = elim (Option-cases (w.pcap_setnonblock p.pcap)) [
    | inl e ↦ absurd (ground arith)
    | inr (pcap, e) ↦ (pcap, p'.globals, e, ground arith, ground arith)
  ]

  install_same :
      (bp : B) (p p' : Prepared P) → install w l bp p ≡ ready p' → p' ≡ record p { pcap = p'.pcap }
  unfolding install
  install_same bp p p' q = ground arith

  install-ready :
      (bp : B) (p p' : Prepared P)
      → install w l bp p ≡ ready p'
      → (p' ≡ record p { pcap = p'.pcap })
        × (((n : ℕ) × (p.globals.vlan_tag ≡ pos n) × (p'.pcap ≡ p.pcap))
            ⊎ ((n : ℕ) × (p.globals.vlan_tag ≡ negsuc n)
                × (w.pcap_setfilter p.pcap bp ≡ some p'.pcap)))
  unfolding install
  install-ready bp p p' q = (
    install_same bp p p' q,
    elim (sign p.globals.vlan_tag) [
      | inl (n, e) ↦ inl (n, e, ground arith)
      | inr (n, e) ↦ inr (n, e, ground arith)
    ],
  )

  set_filter-ready :
      (p p' : Prepared P)
      → set_filter w l p ≡ ready p'
      → (bp : B) × (w.pcap_compile p.pcap (filter_text l.mode p.globals.vlan_tag) ≡ some bp)
        × (install w l bp p ≡ ready p')
  unfolding set_filter
  set_filter-ready p p' q =
      elim (Option-cases (w.pcap_compile p.pcap (filter_text l.mode p.globals.vlan_tag))) [
        | inl e ↦ absurd (ground arith)
        | inr (bp, e) ↦ (bp, e, ground arith)
      ]

  own_address-ready :
      (p p' : Prepared P)
      → own_address w l p ≡ ready p'
      → HasAddress p'.globals
        × (p' ≡ record p { globals = p'.globals })
        × (p'.globals.vlan_tag ≡ p.globals.vlan_tag)
  unfolding own_address
  own_address-ready p p' q = (ground arith, ground arith, ground arith)

  pub capture-ready :
      (p p' : Prepared P)
      → capture w l p ≡ ready p'
      → IsDropped p.process p'.process
        × IsFiltered p.pcap p'.globals.vlan_tag p'.pcap
        × HasAddress p'.globals
        × (p'.net ≡ p.net)
        × (p'.rts ≡ p.rts)
  unfolding capture
  capture-ready p p' q =
      let (p1, e1, q1) = after-ready (drop w l p) _ p' q in
      let (p2, e2, q2) = after-ready (unblock w l p1) _ p' q1 in
      let (p3, e3, q3) = after-ready (set_filter w l p2) _ p' q2 in
      let (r, dropped, s1) = drop-ready p p1 e1 in
      let (pcap, g, nonblocking, s2, tag2) = unblock-ready p1 p2 e2 in
      let (bp, compiled, installs) = set_filter-ready p2 p3 e3 in
      let (s3, installed) = install-ready bp p2 p3 installs in
      let (address, s4, tag4) = own_address-ready p3 p' q3 in
      let tag : p2.globals.vlan_tag ≡ p'.globals.vlan_tag = ground arith in
      let open_now : w.pcap_setnonblock p.pcap ≡ some pcap = ground arith in
      let compiled' : w.pcap_compile pcap (filter_text l.mode p'.globals.vlan_tag) ≡ some bp =
        ground arith in
      (
        (p.globals, r.globals, dropped ∙ ap some (ground arith)),
        elim installed [
          | inl (n, tagged, kept) ↦ unfiltered n (sym tag ∙ tagged) (ground arith)
          | inr (n, untagged, filter) ↦
              filtered pcap (filter_text l.mode p'.globals.vlan_tag) bp n (sym tag ∙ untagged)
                (filter_text-IsFilter n p'.globals.vlan_tag (sym tag ∙ untagged)) open_now compiled'
                (ground arith)
        ],
        address,
        ground arith,
        ground arith,
      )

  drop-Stops : (p : Prepared P) → Stops (drop w l p)
  unfolding drop
  drop-Stops p status out q = ground arith

  unblock-Stops : (p : Prepared P) → Stops (unblock w l p)
  unfolding unblock
  unblock-Stops p status out q = ground arith

  set_filter-Stops : (p : Prepared P) → Stops (set_filter w l p)
  unfolding set_filter install
  set_filter-Stops p status out q = ground arith

  own_address-Stops : (p : Prepared P) → Stops (own_address w l p)
  unfolding own_address
  own_address-Stops p status out q = ground arith

  pub capture-Stops : (p : Prepared P) → Stops (capture w l p)
  unfolding capture
  capture-Stops p = after-Stops (drop w l p) _ (drop-Stops p) (λ p1.
      after-Stops (unblock w l p1) _ (unblock-Stops p1)
        (λ p2. after-Stops (set_filter w l p2) _ (set_filter-Stops p2) own_address-Stops))
