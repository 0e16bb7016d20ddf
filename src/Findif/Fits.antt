-- ===== src/Findif/Fits.antt =====
-- The interfaces that `arping_lookupdev` takes into account.
use arping.Prelude.{
  ℕ, ◌≡◌, ◌⊎◌, inl, inr, refl, Bool, true, false, none, some, not, ◌==◌, arith, bit_and, Text, ◌&&◌,
  Option-cases, Bool-cases,
}
use arping.Host.Order.{Endian}
use arping.Findif.{Sockaddr, Ifaddr, Search, improve, consider_present, consider}

-- Interface `i`, called `name`, is up, is neither loopback nor point-to-point, has an IPv4 address,
-- and its network of this mask holds the target.
pub record Fits (dstip : ℕ) (i : Ifaddr) (name : Text) (mask : ℕ) : Type 0 where
  pub addr : Sockaddr
  pub netmask : Sockaddr
  pub is_up : i.iff_up ≡ true
  pub no_loopback : i.iff_loopback ≡ false
  pub no_pointopoint : i.iff_pointopoint ≡ false
  pub has_addr : i.ifa_addr ≡ some addr
  pub has_netmask : i.ifa_netmask ≡ some netmask
  pub has_name : i.ifa_name ≡ some name
  pub is_inet : addr.inet ≡ true
  pub mask_is : netmask.s_addr ≡ mask
  pub on_net : bit_and addr.s_addr mask ≡ bit_and dstip mask

module _ (e : Endian) (dstip : ℕ) where
  pub consider-Fits :
      (s : Search) (i : Ifaddr) (name : Text) (mask : ℕ)
      → Fits dstip i name mask
      → consider e dstip s i ≡ improve e dstip s name mask
  unfolding consider consider_present
  consider-Fits s i name mask f = ground (arith, f.has_addr, f.has_netmask, f.has_name, f.on_net)

  -- The five tests, once the three pointers are there.
  passes : Ifaddr → Sockaddr → Sockaddr → Bool
  passes i addr netmask =
      i.iff_up
      && (addr.inet
          && (not i.iff_loopback
              && (not i.iff_pointopoint
                  && (bit_and addr.s_addr netmask.s_addr == bit_and dstip netmask.s_addr))))

  unfoldable pub Unfit : Search → Ifaddr → Type 0
  Unfit s i = ((name : Text) (mask : ℕ) → ¬ Fits dstip i name mask) × (consider e dstip s i ≡ s)

  unfoldable pub Fit : Ifaddr → Type 0
  Fit i = (name : Text) × (mask : ℕ) × Fits dstip i name mask

  present_cases :
      (s : Search) (i : Ifaddr) (addr netmask : Sockaddr) (name : Text)
      → i.ifa_addr ≡ some addr
      → i.ifa_netmask ≡ some netmask
      → i.ifa_name ≡ some name
      → Fit i ⊎ Unfit s i
  unfolding consider consider_present passes Fit Unfit
  present_cases s i addr netmask name pa pm pn = elim (Bool-cases (passes i addr netmask)) [
    | inl fits ↦ inl (
      name,
      netmask.s_addr,
      record {
        addr = addr;
        netmask = netmask;
        is_up = ground arith;
        no_loopback = ground arith;
        no_pointopoint = ground arith;
        has_addr = pa;
        has_netmask = pm;
        has_name = pn;
        is_inet = ground arith;
        mask_is = refl;
        on_net = ground arith;
      },
    )
    | inr drops ↦
        inr (λ n m f. ground (arith, f.has_addr, f.has_netmask, f.on_net, f.mask_is), ground arith)
  ]

  missing :
      (s : Search) (i : Ifaddr)
      → (i.ifa_addr ≡ none) ⊎ (i.ifa_netmask ≡ none) ⊎ (i.ifa_name ≡ none)
      → Unfit s i
  unfolding consider consider_present Unfit
  missing s i h = (λ n m f. ground (arith, f.has_addr, f.has_netmask, f.has_name), ground arith)

  -- An interface fits, with a name and a mask, or the round does nothing.
  pub consider-cases : (s : Search) (i : Ifaddr) → Fit i ⊎ Unfit s i
  consider-cases s i = elim (Option-cases i.ifa_addr) [
    | inl pa ↦ inr (missing s i (inl pa))
    | inr (addr, pa) ↦ elim (Option-cases i.ifa_netmask) [
      | inl pm ↦ inr (missing s i (inr (inl pm)))
      | inr (netmask, pm) ↦ elim (Option-cases i.ifa_name) [
        | inl pn ↦ inr (missing s i (inr (inr pn)))
        | inr (name, pn) ↦ present_cases s i addr netmask name pa pm pn
      ]
    ]
  ]
