-- ===== src/Prepare/Greeted.antt =====
-- The own MAC address, the handler of SIGINT and the messages before the first packet.
use arping.Prelude.{ℕ, ◌≡◌, ◌⊎◌, inl, inr, refl, true, Option, some, Text, arith, Bool-cases}
use arping.State.{Globals, sigint}
use arping.Mac.{EthAddr}
use arping.Options.{Locals}
use arping.Options.Settle.{given}
use arping.GetMac.{Rts, get_mac}
use arping.Prepare.{World, Prepared, ready, greet, own_mac}

module _ {P B : Type 0} (w : World P B) (l : Locals) where
  -- `get_mac` faults nowhere, or is not called.
  abbrev pub HasMac : ℕ → Text → Type 0
  HasMac fuel ifname =
      (given l.srcmac_opt ≡ true)
      ⊎ ((r : Rts)
          → (mac : EthAddr) × (r' : Rts) × (get_mac w.rtslib fuel ifname r ≡ some (mac, r')))

  pub own_mac-returns :
      (fuel : ℕ) (ifname : Text) (p : Prepared P)
      → HasMac fuel ifname
      → (p' : Prepared P) × (own_mac w l fuel ifname p ≡ some p')
        × (p'
            ≡ record p { rts = p'.rts; globals = record p.globals { srcmac = p'.globals.srcmac } })
  unfolding own_mac
  own_mac-returns fuel ifname p (inl set) = (p, ground arith, refl)
  own_mac-returns fuel ifname p (inr reads) =
      let (mac, r', e) = reads p.rts in
      let p' : Prepared P = record p { rts = r'; globals = record p.globals { srcmac = mac } } in
      elim (Bool-cases (given l.srcmac_opt)) [
        | inl set ↦ (p, rw set refl, refl)
        | inr unset ↦ (p', rw (unset, e) refl, refl)
      ]

  -- What the messages and the handler leave as it was.
  pub record IsGreeted (p p' : Prepared P) : Type 0 where
    pub net : p'.net ≡ p.net
    pub pcap : p'.pcap ≡ p.pcap
    pub process : p'.process ≡ p.process
    pub tag : p'.globals.vlan_tag ≡ p.globals.vlan_tag
    pub srcip : p'.globals.srcip ≡ p.globals.srcip
    pub signal : (g : Globals) → p'.on_sigint g ≡ some (sigint g)

  pub greet-IsGreeted :
      (parm : Option Text) (p : Prepared P)
      → (p' : Prepared P) × (greet w l parm p ≡ ready p') × IsGreeted p p'
  unfolding greet
  greet-IsGreeted parm p = (
    _,
    refl,
    record {
      net = refl;
      pcap = refl;
      process = refl;
      tag = ground arith;
      srcip = ground arith;
      signal = λ g. refl;
    },
  )
