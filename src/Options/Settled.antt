-- ===== src/Options/Settled.antt =====
-- The variables after the options that exclude each other have been tested.
use arping.Prelude.{
  ℕ, ◌≤◌, ◌≡◌, ◌≢◌, ◌∙◌, Bool, none, pos, ap, sym, ◌⊎◌, inl, inr, false, ◌&&◌, ◌==◌, if◌then◌else◌,
  negsuc, Text, arith, Option-cases,
}
use arping.State.{Globals, uint_max}
use arping.Options.{pingmac, pingip, Locals, in_range}
use arping.Options.Bounds.{Fits, IsSane}
use arping.Options.Settle.{
  conflict, unbuffer, settle_prio, settle_count, settle_srcmac, settle_dstmac, settle_vlan,
  resolve_srcip, resolve_dstip, settle_srcip, settle_dstip, addresses, settle,
}
use arping.Stage.{Stage, Step, go_on, Site, at_srcip, at_dstip, Lookups, with_libnet}
use arping.Stage.Calls.{on-go_on, with_libnet-go_on}

-- No options that exclude each other: -T is for a MAC address, and -B, -t and -U are for an IP address; a
-- priority in 0-7, with a tag in 0-4095 if it was given; and a count that is 3 for -d if none was given.
pub record IsSettled (l l' : Locals) (g g' : Globals) : Type 0 where
  pub ip_only : (l.mode ≢ pingip) ⊎ (l.opt_T ≡ false)
  pub mac_only :
      (l.mode ≢ pingmac) ⊎ ((l.opt_B ≡ false) × (l.dstmac_opt ≡ none) × (l.opt_U ≡ false))
  pub one_address : (l.opt_T ≡ false) ⊎ (l.opt_B ≡ false)
  pub prio : (n : ℕ) × (g'.vlan_prio ≡ pos n) × (n ≤ 7)
  pub tag : (g.vlan_prio ≡ negsuc 0) ⊎ ((n : ℕ) × (g'.vlan_tag ≡ pos n) × (n ≤ 4095))
  pub tag_same : g'.vlan_tag ≡ g.vlan_tag
  pub maxcount : l'.maxcount ≡ (if g.finddup && l.maxcount == uint_max then 3 else l.maxcount)

abbrev Exclusions : Locals → Type 0
Exclusions l =
    ((l.mode ≢ pingip) ⊎ (l.opt_T ≡ false))
    × ((l.mode ≢ pingmac) ⊎ ((l.opt_B ≡ false) × (l.dstmac_opt ≡ none) × (l.opt_U ≡ false)))
    × ((l.opt_T ≡ false) ⊎ (l.opt_B ≡ false))

conflict-Exclusions : (l : Locals) → conflict l ≡ false → l.opt_T && l.opt_B ≡ false → Exclusions l
unfolding conflict
conflict-Exclusions l c b = (ground arith, ground arith, ground arith)

-- A step that leaves the locals, the VLAN and -d as they are.
abbrev Leaves : Stage → Stage → Type 0
Leaves s s' =
    (s'.locals ≡ s.locals)
    × (s'.globals.vlan_tag ≡ s.globals.vlan_tag)
    × (s'.globals.vlan_prio ≡ s.globals.vlan_prio)
    × (s'.globals.finddup ≡ s.globals.finddup)

module _ (s s' : Stage) where
  settle_srcmac-Leaves : settle_srcmac s ≡ go_on s' → Leaves s s'
  unfolding settle_srcmac
  settle_srcmac-Leaves q = ground arith

  settle_dstmac-Leaves : settle_dstmac s ≡ go_on s' → Leaves s s'
  unfolding settle_dstmac
  settle_dstmac-Leaves q = ground arith

  resolve_srcip-Leaves :
      (w : Lookups) (text : Text) → resolve_srcip w text s ≡ go_on s' → Leaves s s'
  unfolding resolve_srcip
  resolve_srcip-Leaves w text q = ground arith

  resolve_dstip-Leaves :
      (w : Lookups) (text : Text) → resolve_dstip w text s ≡ go_on s' → Leaves s s'
  unfolding resolve_dstip
  resolve_dstip-Leaves w text q = ground arith

-- After a call of `do_libnet_init`.
with_libnet-Leaves :
    (w : Lookups) (site : Site) (s s' : Stage) (k : Stage → Step)
    → ((s1 : Stage) → k s1 ≡ go_on s' → Leaves s1 s')
    → with_libnet w site s k ≡ go_on s'
    → Leaves s s'
with_libnet-Leaves w site s s' k leaves q =
    let (s1, locals, parm, globals, r) = with_libnet-go_on w site s s' k q in
    let (l, t, p, f) = leaves s1 r in
    (
      l ∙ locals,
      t ∙ ap (λ g. g.vlan_tag) globals,
      p ∙ ap (λ g. g.vlan_prio) globals,
      f ∙ ap (λ g. g.finddup) globals,
    )

module _ (w : Lookups) (s s' : Stage) where
  settle_srcip-Leaves : settle_srcip w s ≡ go_on s' → Leaves s s'
  unfolding settle_srcip
  settle_srcip-Leaves q = elim (Option-cases s.locals.srcip_opt) [
    | inl e ↦ ground arith
    | inr (text, e) ↦
        with_libnet-Leaves w at_srcip s s' (resolve_srcip w text)
          (λ s1. resolve_srcip-Leaves s1 s' w text) (ground arith)
  ]

  settle_dstip-Leaves : settle_dstip w s ≡ go_on s' → Leaves s s'
  unfolding settle_dstip
  settle_dstip-Leaves q = elim (Option-cases s.locals.dstip_opt) [
    | inl e ↦ ground arith
    | inr (text, e) ↦
        with_libnet-Leaves w at_dstip s s' (resolve_dstip w text)
          (λ s1. resolve_dstip-Leaves s1 s' w text) (ground arith)
  ]

module _ (s s' : Stage) where
  settle_vlan-IsSettled :
      (ok : Bool)
      → Fits 4095 s.globals.vlan_tag
      → Fits 7 s.globals.vlan_prio
      → conflict s.locals ≡ false
      → s.locals.opt_T && s.locals.opt_B ≡ false
      → settle_vlan ok s ≡ go_on s'
      → IsSettled s.locals s'.locals s.globals s'.globals
  unfolding settle_vlan unbuffer settle_prio settle_count in_range
  settle_vlan-IsSettled ok t p no_conflict not_both q = record {
    ip_only = (conflict-Exclusions s.locals no_conflict not_both).0;
    mac_only = (conflict-Exclusions s.locals no_conflict not_both).1;
    one_address = (conflict-Exclusions s.locals no_conflict not_both).2;
    prio = elim p [
      | inl unset ↦ (0, ground arith, omega arith)
      | inr (n, e, le) ↦ (n, ground arith, le)
    ];
    tag = elim p [
      | inl unset ↦ inl unset
      | inr (n, e, le) ↦ elim t [
        | inl untagged ↦ absurd (ground arith)
        | inr (k, tagged, fits) ↦ inr (k, ground arith, fits)
      ]
    ];
    tag_same = ground arith;
    maxcount = ground arith;
  }

module _ (w : Lookups) (s s' : Stage) where
  addresses-vlan :
      addresses w s ≡ go_on s'
      → (s4 : Stage) × Leaves s s4 × (settle_vlan w.setvbuf_ok s4 ≡ go_on s')
  unfolding addresses
  addresses-vlan q =
      let (s1, e1, q1) = on-go_on (settle_srcmac s) _ s' q in
      let (s2, e2, q2) = on-go_on (settle_dstmac s1) _ s' q1 in
      let (s3, e3, q3) = on-go_on (settle_srcip w s2) _ s' q2 in
      let (s4, e4, q4) = on-go_on (settle_dstip w s3) (settle_vlan w.setvbuf_ok) s' q3 in
      let a1 = settle_srcmac-Leaves s s1 e1 in
      let a2 = settle_dstmac-Leaves s1 s2 e2 in
      let a3 = settle_srcip-Leaves w s2 s3 e3 in
      let a4 = settle_dstip-Leaves w s3 s4 e4 in
      (
        s4,
        (
          a4.0 ∙ a3.0 ∙ a2.0 ∙ a1.0,
          a4.1 ∙ a3.1 ∙ a2.1 ∙ a1.1,
          a4.2 ∙ a3.2 ∙ a2.2 ∙ a1.2,
          a4.3 ∙ a3.3 ∙ a2.3 ∙ a1.3,
        ),
        q4,
      )

  settle-addresses :
      (rest : ℕ)
      → settle w rest s ≡ go_on s'
      → (conflict s.locals ≡ false)
        × (s.locals.opt_T && s.locals.opt_B ≡ false)
        × (addresses w s ≡ go_on s')
  unfolding settle
  settle-addresses rest q = (ground arith, ground arith, ground arith)

-- From a sane state that passes the tests behind the options, whatever libnet answers: -T was not given
-- for an IP address, nor -B, -t or -U for a MAC address, nor -T with -B, the priority is in 0-7, with a tag in 0-4095 if it was given, the
-- tag is what it was, and the count is 3 for -d if none was given.
pub settle-IsSettled :
    (w : Lookups) (rest : ℕ) (s s' : Stage)
    → IsSane s.locals s.globals
    → settle w rest s ≡ go_on s'
    → IsSettled s.locals s'.locals s.globals s'.globals
settle-IsSettled w rest s s' sane q =
    let (agree, both, a) = settle-addresses w s s' rest q in
    let (s1, (e, t, p, f), v) = addresses-vlan w s s' a in
    let settled : IsSettled s1.locals s'.locals s1.globals s'.globals =
      settle_vlan-IsSettled s1 s' w.setvbuf_ok (rw t sane.tag) (rw p sane.prio) (rw e agree)
        (rw e both) v in
    record {
      ip_only = (conflict-Exclusions s.locals agree both).0;
      mac_only = (conflict-Exclusions s.locals agree both).1;
      one_address = (conflict-Exclusions s.locals agree both).2;
      prio = settled.prio;
      tag = rw (sym p) settled.tag;
      tag_same = settled.tag_same ∙ t;
      maxcount = settled.maxcount ∙ ground arith;
    }
