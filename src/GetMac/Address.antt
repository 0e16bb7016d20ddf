-- ===== src/GetMac/Address.antt =====
-- The address that `get_mac` returns, and what it rests on.
use arping.Prelude.{
  ℕ, suc, ◌≤◌, ◌≡◌, refl, inl, inr, Bool, true, false, ◌||◌, some, List, ◌∷◌, Text, codes, arith,
  length, Bool-cases, if◌then◌else◌,
}
use arping.GetMac.{
  Ifl, Rtslib, Rts, say, strstr, get_intf_mac, open_cookie, mac_of, ifl_get_device_byifindex,
  get_mac,
}
use arping.GetMac.Underlying.{End, Way, ifl_get_device_byifindex-Way}

-- `strstr(ifname, "irb.") || strstr(ifname, ".")`.
abbrev pub dotted : Text → Bool
dotted ifname = strstr ifname (codes "irb.") || strstr ifname (codes ".")

-- The device whose address is asked for: the interface, or what `ifl_get_device_name` makes of a name
-- with a dot, where the logical interface has a message, over a finite stack.
pub data IsDevice (rts : Rtslib) (fuel : ℕ) (ifname dev : Text) : Type 0 where
  plain : dotted ifname ≡ false → dev ≡ ifname → IsDevice rts fuel ifname dev
  logical :
      (subunit : ℕ) (ok : Bool) (iflm : Ifl) (is : List Ifl) (e : End)
      → dotted ifname ≡ true
      → rts.ifl_get_device_name ifname ≡ some (dev, subunit)
      → rts.iflm_get_by_name dev subunit ≡ (ok, some iflm)
      → Way rts iflm.iflm_index is e
      → suc (length is) ≤ fuel
      → IsDevice rts fuel ifname dev

byifindex_closed :
    (rts : Rtslib) (fuel n : ℕ) (r : Rts)
    → rts.rtslib_open r.cookies ≡ false
    → ifl_get_device_byifindex rts fuel n r ≡ some (false, r)
unfolding ifl_get_device_byifindex
byifindex_closed rts fuel n r closed = rw closed refl

byifindex_returns :
    (rts : Rtslib) (fuel n : ℕ) (r : Rts) (is : List Ifl) (e : End)
    → Way rts n is e
    → suc (length is) ≤ fuel
    → (ok : Bool) × (r' : Rts) × (ifl_get_device_byifindex rts fuel n r ≡ some (ok, r'))
byifindex_returns rts fuel n r is e w room = elim (Bool-cases (rts.rtslib_open r.cookies)) [
  | inl opens ↦ (_, _, ifl_get_device_byifindex-Way rts fuel n r is e opens w room)
  | inr closed ↦ (false, r, byifindex_closed rts fuel n r closed)
]

module _ (rts : Rtslib) (a b c d e f : ℕ) (rest : List ℕ) where
  mac_of_six :
      (dev : Text) (r : Rts)
      → rts.ifdm_get_by_name dev ≡ some (a ∷ b ∷ c ∷ d ∷ e ∷ f ∷ rest)
      → mac_of rts dev r ≡ some (record { m0 = a; m1 = b; m2 = c; m3 = d; m4 = e; m5 = f }, r)
  unfolding mac_of get_intf_mac
  mac_of_six dev r at = rw at refl

  -- The address of an interface without a dot in its name is the first six bytes of its link address; that
  -- of a logical interface those of the device that `ifl_get_device_name` gives, if the interface has a
  -- message and lies over a finite stack. `get_mac` returns it, whether the cookies were opened or not, and
  -- whether the way down the stack ends with an error or not.
  pub get_mac-IsDevice :
      (fuel : ℕ) (ifname dev : Text) (r : Rts)
      → IsDevice rts fuel ifname dev
      → rts.ifdm_get_by_name dev ≡ some (a ∷ b ∷ c ∷ d ∷ e ∷ f ∷ rest)
      → (r' : Rts) × (get_mac rts fuel ifname r
          ≡ some (record { m0 = a; m1 = b; m2 = c; m3 = d; m4 = e; m5 = f }, r'))
  unfolding get_mac
  get_mac-IsDevice fuel ifname dev r (plain none_in same) at =
      let r1 = open_cookie rts r in (r1, ground (arith, mac_of_six dev r1 at))
  get_mac-IsDevice fuel ifname dev r (logical subunit ok iflm is end dot named found w room) at =
      let r1 = say "%d" (open_cookie rts r) in
      let (down, r2, q) =
        byifindex_returns rts fuel iflm.iflm_index (if ok then say "ERROR" r1 else r1) is end w
          room in
      (r2, ground (arith, mac_of_six dev r2 at))
