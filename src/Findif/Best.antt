-- ===== src/Findif/Best.antt =====
-- What `arping_lookupdev` returns, from the list of the interfaces.
use arping.Prelude.{
  ℕ, ◌≤◌, ◌<◌, ◌≡◌, ap, refl, inl, inr, Option, none, some, List, take, Text, arith,
}
use mathlib.Core.List.{Memᴰ}
use arping.Host.Order.{Endian, ntohl}
use arping.Findif.{Ifaddr, Search, name_max, consider_all, finish_lookup, arping_lookupdev}
use arping.Findif.Fits.{Fits, Fit}
use arping.Findif.Longest.{Chosen, Scanned, consider_all-Scanned}

-- The interface `i` of the list fits, its mask is the longest of those that fit, and its name, cut
-- to the buffer, is what is returned.
pub record IsLongest (e : Endian) (dstip : ℕ) (is : List Ifaddr) (ret : Option Text) : Type 0 where
  pub interface : Ifaddr
  pub name : Text
  pub mask : ℕ
  pub mem : Memᴰ interface is
  pub fits : Fits dstip interface name mask
  pub longest :
      (j : Ifaddr) (other : Text) (mask' : ℕ)
      → Memᴰ j is
      → Fits dstip j other mask'
      → ntohl e mask' ≤ ntohl e mask
  pub returned : ret ≡ some (take name_max name)

ntohl-zero : (e : Endian) → ntohl e 0 ≡ 0
unfolding ntohl
ntohl-zero Endian.little = refl
ntohl-zero Endian.big = refl

module _ (e : Endian) (dstip : ℕ) (ifname error : Text) (is : List Ifaddr) where
  abbrev start : Search
  start = record { match_count = 0; best_mask = 0; ifname = ifname }

  abbrev last : Search
  last = consider_all e dstip start is

  scanned : Scanned e dstip start last is
  scanned = consider_all-Scanned e dstip is start

  -- If no interface of the list fits, `arping_lookupdev` returns NULL.
  pub arping_lookupdev-none :
      ((i : Ifaddr) → Memᴰ i is → ¬ Fit e dstip i)
      → (arping_lookupdev e dstip ifname error (some is)).ret ≡ none
  unfolding arping_lookupdev finish_lookup
  arping_lookupdev-none unfit = rw (scanned.unchanged unfit) refl

  -- If an interface of the list fits whose mask is not zero, `arping_lookupdev` returns the name,
  -- cut to the buffer, of an interface that fits with the longest mask of all that fit.
  pub arping_lookupdev-IsLongest :
      (i : Ifaddr) (name : Text) (mask : ℕ)
      → Memᴰ i is
      → Fits dstip i name mask
      → 0 < ntohl e mask
      → IsLongest e dstip is (arping_lookupdev e dstip ifname error (some is)).ret
  unfolding arping_lookupdev finish_lookup Chosen
  arping_lookupdev-IsLongest i name mask m f positive = elim scanned.chosen [
    | inl (same, kept) ↦
        absurd (omega (arith, (scanned.longest i name mask m f).0, ap (ntohl e) same, ntohl-zero e))
    | inr (j, n, m', f', kept, lt) ↦ record {
      interface = j;
      name = n;
      mask = last.best_mask;
      mem = m';
      fits = f';
      longest = λ k other mask' mk fk. (scanned.longest k other mask' mk fk).0;
      returned = ground (arith, scanned.longest i name mask m f, kept);
    }
  ]

  -- If every interface that fits has the mask zero, and there is one, `arping_lookupdev` returns
  -- what the static buffer held before: the first time, no name at all.
  pub arping_lookupdev-zero_mask :
      (i : Ifaddr) (name : Text) (mask : ℕ)
      → Memᴰ i is
      → Fits dstip i name mask
      → ((j : Ifaddr) (other : Text) (mask' : ℕ)
          → Memᴰ j is
          → Fits dstip j other mask'
          → ntohl e mask' ≡ 0)
      → (arping_lookupdev e dstip ifname error (some is)).ret ≡ some ifname
  unfolding arping_lookupdev finish_lookup Chosen
  arping_lookupdev-zero_mask i name mask m f zero_masks = elim scanned.chosen [
    | inl (same, kept) ↦ ground (arith, scanned.longest i name mask m f, kept)
    | inr (j, n, m', f', kept, lt) ↦
        absurd (omega (arith, zero_masks j n last.best_mask m' f', lt, ntohl-zero e))
  ]
