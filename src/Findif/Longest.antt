-- ===== src/Findif/Longest.antt =====
-- The interface that `arping_lookupdev` returns has the longest mask of those that match.
use arping.Prelude.{
  ℕ, ◌+◌, ◌≤◌, ◌<◌, ◌≡◌, ◌⊎◌, inl, inr, refl, sym, ◌∙◌, subst, List, [], ◌∷◌, ltb, arith, take,
  Text, Bool-cases,
}
use mathlib.Core.List.{Memᴰ}
use arping.Host.Order.{Endian, ntohl}
use arping.Findif.{Ifaddr, Search, name_max, improve, consider_all}
use arping.Findif.Fits.{Fits, Fit, Unfit, consider-Fits, consider-cases}

module _ (e : Endian) (dstip : ℕ) where
  -- The best interface is still the old one, or one of the list.
  unfoldable pub Chosen : Search → Search → List Ifaddr → Type 0
  Chosen s r is =
      ((r.best_mask ≡ s.best_mask) × (r.ifname ≡ s.ifname))
      ⊎ ((i : Ifaddr) × (name : Text) × Memᴰ i is
          × Fits dstip i name r.best_mask
          × (r.ifname ≡ take name_max name)
          × (ntohl e s.best_mask < ntohl e r.best_mask))

  -- What a scan of `is` from state `s` to state `r` has found.
  pub record Scanned (s r : Search) (is : List Ifaddr) : Type 0 where
    pub counted : s.match_count ≤ r.match_count
    pub grown : ntohl e s.best_mask ≤ ntohl e r.best_mask
    pub longest :
        (i : Ifaddr) (name : Text) (mask : ℕ)
        → Memᴰ i is
        → Fits dstip i name mask
        → (ntohl e mask ≤ ntohl e r.best_mask) × (s.match_count < r.match_count)
    pub chosen : Chosen s r is
    pub unchanged : ((i : Ifaddr) → Memᴰ i is → ¬ Fit e dstip i) → r ≡ s

  improve_lem :
      (s : Search) (name : Text) (mask : ℕ)
      → (ntohl e mask ≤ ntohl e (improve e dstip s name mask).best_mask)
        × (ntohl e s.best_mask ≤ ntohl e (improve e dstip s name mask).best_mask)
        × ((improve e dstip s name mask).match_count ≡ s.match_count + 1)
  unfolding improve
  improve_lem s name mask = ground arith

  improve_chosen :
      (s : Search) (name : Text) (mask : ℕ)
      → (((improve e dstip s name mask).best_mask ≡ s.best_mask)
          × ((improve e dstip s name mask).ifname ≡ s.ifname))
        ⊎ (((improve e dstip s name mask).best_mask ≡ mask)
            × ((improve e dstip s name mask).ifname ≡ take name_max name)
            × (ntohl e s.best_mask < ntohl e mask))
  unfolding improve
  improve_chosen s name mask = elim (Bool-cases (ltb (ntohl e s.best_mask) (ntohl e mask))) [
    | inl longer ↦ inr (ground arith, ground arith, ground arith)
    | inr no_longer ↦ inl (ground arith, ground arith)
  ]

  -- A fit on the first interface, or on the others.
  Memᴰ-cases :
      (j i : Ifaddr) (is : List Ifaddr) (name : Text) (mask : ℕ)
      → Memᴰ j (i ∷ is)
      → Fits dstip j name mask
      → Fits dstip i name mask ⊎ Memᴰ j is
  Memᴰ-cases j i is name mask (Memᴰ.head q) f = inl (subst (λ x. Fits dstip x name mask) q f)
  Memᴰ-cases j i is name mask (Memᴰ.tail t) f = inr t

  mask_unique :
      (i : Ifaddr) (name name' : Text) (mask mask' : ℕ)
      → Fits dstip i name mask
      → Fits dstip i name' mask'
      → mask ≡ mask'
  mask_unique i name name' mask mask' f f' =
      ground (arith, f.has_netmask, f'.has_netmask, f.mask_is, f'.mask_is)

  Chosen-cons : (s r : Search) (i : Ifaddr) (is : List Ifaddr) → Chosen s r is → Chosen s r (i ∷ is)
  unfolding Chosen
  Chosen-cons s r i is (inl same) = inl same
  Chosen-cons s r i is (inr (j, name, m, f, q, lt)) = inr (j, name, Memᴰ.tail m, f, q, lt)

  Chosen-fit :
      (s r : Search) (i : Ifaddr) (is : List Ifaddr) (name : Text) (mask : ℕ)
      → Fits dstip i name mask
      → Chosen (improve e dstip s name mask) r is
      → Chosen s r (i ∷ is)
  unfolding Chosen
  Chosen-fit s r i is name mask f (inr (j, n, m, g, q, lt)) =
      inr (j, n, Memᴰ.tail m, g, q, omega (arith, improve_lem s name mask, lt))
  Chosen-fit s r i is name mask f (inl (b, q)) = elim (improve_chosen s name mask) [
    | inl (b', q') ↦ inl (b ∙ b', q ∙ q')
    | inr (b', q', lt) ↦
        let same : r.best_mask ≡ mask = b ∙ b' in
        inr (
          i,
          name,
          Memᴰ.head refl,
          subst (Fits dstip i name) (sym same) f,
          q ∙ q',
          subst (λ k. ntohl e s.best_mask < ntohl e k) (sym same) lt,
        )
  ]

  Scanned-skip :
      (s r : Search) (i : Ifaddr) (is : List Ifaddr)
      → ((name : Text) (mask : ℕ) → ¬ Fits dstip i name mask)
      → Scanned s r is
      → Scanned s r (i ∷ is)
  Scanned-skip s r i is unfit h = record {
    counted = h.counted;
    grown = h.grown;
    longest = λ j name mask m f. elim (Memᴰ-cases j i is name mask m f) [
      | inl g ↦ absurd (unfit name mask g)
      | inr t ↦ h.longest j name mask t f
    ];
    chosen = Chosen-cons s r i is h.chosen;
    unchanged = λ none_fit. h.unchanged (λ j m. none_fit j (Memᴰ.tail m));
  }

  Scanned-fit :
      (s r : Search) (i : Ifaddr) (is : List Ifaddr) (name : Text) (mask : ℕ)
      → Fits dstip i name mask
      → Scanned (improve e dstip s name mask) r is
      → Scanned s r (i ∷ is)
  unfolding Fit
  Scanned-fit s r i is name mask f h = record {
    counted = omega (arith, h.counted, improve_lem s name mask);
    grown = omega (arith, h.grown, improve_lem s name mask);
    longest = λ j name' mask' m f'. elim (Memᴰ-cases j i is name' mask' m f') [
      | inl g ↦
          let q = mask_unique i name name' mask mask' f g in
          rw (← q) (omega (arith, h.grown, h.counted, improve_lem s name mask))
      | inr t ↦ omega (arith, h.longest j name' mask' t f', improve_lem s name mask)
    ];
    chosen = Chosen-fit s r i is name mask f h.chosen;
    unchanged = λ none_fit. absurd (none_fit i (Memᴰ.head refl) (name, mask, f));
  }

  pub consider_all-Scanned :
      (is : List Ifaddr) (s : Search) → Scanned s (consider_all e dstip s is) is
  unfolding consider_all Fit Unfit Chosen
  consider_all-Scanned [] s = record {
    counted = omega arith;
    grown = omega arith;
    longest = λ i name mask m f. elim m [ ];
    chosen = inl (refl, refl);
    unchanged = λ _. refl;
  }
  consider_all-Scanned (i ∷ is) s = elim (consider-cases e dstip s i) [
    | inl (name, mask, f) ↦ Scanned-fit s _ i is name mask f (
        rw (consider-Fits e dstip s i name mask f)
          (consider_all-Scanned is (improve e dstip s name mask)))
    | inr (unfit, same) ↦ rw same (Scanned-skip s _ i is unfit (consider_all-Scanned is s))
  ]
