-- ===== src/GetMac.antt =====
-- get_mac.c: the MAC address of the interface. The Junos calls are parameters; `none` is an access through
-- NULL or to a variable that was never written. What is printed, and how many cookies of rtslib are open, is
-- handed from call to call.
pub mod Underlying
pub mod Address
use Prim.Native.String.{String}
use arping.Prelude.{
  ℕ, zero, suc, ◌+◌, ◌-◌, Bool, true, false, Option, none, some, List, [], ◌∷◌, ◌++◌, ◌||◌, ◌&&◌,
  ◌==◌, if◌then◌else◌, Text, codes,
}
use arping.Host.Order.{◌>>=◌}
use arping.State.{Output, message}
use arping.Mac.{EthAddr}

-- The fields of an `ifl_msg_t` that are read.
pub record Ifl : Type 0 where
  pub iflm_index : ℕ
  pub iflm_underlying_index : ℕ
  pub name : Text

-- `rtslib_iflm_get_by_index`: an error, no message, or one.
pub data Answer : Type 0 where
  failed missing : Answer
  present : Ifl → Answer

-- `ifl_get_device_name` is `none` if it fails. `rtslib_iflm_get_by_name` has two results: whether the
-- number it returns is positive, and the message. `rtslib_ifdm_get_by_name` is the link address of the
-- message, if there is one.
pub record Rtslib : Type 0 where
  pub rtslib_open : ℕ → Bool
  pub iflm_get_by_index : ℕ → Answer
  pub iflm_get_by_name : Text → ℕ → Bool × Option Ifl
  pub ifl_get_device_name : Text → Option (Text × ℕ)
  pub ifdm_get_by_name : Text → Option (List ℕ)

pub record Rts : Type 0 where
  pub cookies : ℕ
  pub out : List Output

abbrev pub say : String → Rts → Rts
say s r = record r { out = r.out ++ message (codes s) ∷ [] }

unfoldable pub is_prefix : Text → Text → Bool
is_prefix [] s = true
is_prefix (x ∷ p) [] = false
is_prefix (x ∷ p) (y ∷ s) = x == y && is_prefix p s

-- `strstr(s, p) != NULL`.
unfoldable pub strstr : Text → Text → Bool
strstr [] p = is_prefix p []
strstr (x ∷ s) p = is_prefix p (x ∷ s) || strstr s p

unfoldable pub get_intf_mac : List ℕ → Option EthAddr
get_intf_mac (a ∷ b ∷ c ∷ d ∷ e ∷ f ∷ rest) =
    some (record { m0 = a; m1 = b; m2 = c; m3 = d; m4 = e; m5 = f })
get_intf_mac _ = none

module _ (rts : Rtslib) where
  -- The loop down the stack of interfaces, with fuel for its height; the cookie is closed behind it, and
  -- on an error, but not if there is no message.
  unfoldable pub underlying : ℕ → ℕ → Rts → Option (Bool × Rts)
  underlying zero idx r =
      if idx == 0 then some (true, record r { cookies = r.cookies - 1 }) else none
  underlying (suc fuel) idx r =
      if idx == 0
      then some (true, record r { cookies = r.cookies - 1 })
      else elim (rts.iflm_get_by_index idx) [
        | failed ↦ some (false, record r { cookies = r.cookies - 1 })
        | missing ↦ some (false, r)
        | present i ↦ underlying fuel i.iflm_underlying_index (
            if i.iflm_underlying_index == 0
            then record r { out = r.out ++ message i.name ∷ [] }
            else r)
      ]

  -- Whether it returns 0.
  unfoldable pub ifl_get_device_byifindex : ℕ → ℕ → Rts → Option (Bool × Rts)
  ifl_get_device_byifindex fuel ifindex r =
      if rts.rtslib_open r.cookies
      then underlying fuel ifindex (record r { cookies = r.cookies + 1 })
      else some (false, r)

  -- `rtslib_open` at the start of `get_mac`, whose cookie is not closed.
  unfoldable pub open_cookie : Rts → Rts
  open_cookie r =
      if rts.rtslib_open r.cookies
      then record r { cookies = r.cookies + 1 }
      else say "ERRORINCOOKIE" r

  unfoldable pub mac_of : Text → Rts → Option (EthAddr × Rts)
  mac_of dev r = do lladdr ← rts.ifdm_get_by_name dev; mac ← get_intf_mac lladdr; some (mac, r)

  -- The first `%d` is the index of the interface. A failed `ifl_get_device_name` leaves `dev` unwritten, and the next call reads it.
  unfoldable pub get_mac : ℕ → Text → Rts → Option (EthAddr × Rts)
  get_mac fuel ifname r =
      if strstr ifname (codes "irb.") || strstr ifname (codes ".")
      then (do
        (dev, subunit) ← rts.ifl_get_device_name ifname
        let named = rts.iflm_get_by_name dev subunit
        iflm ← named.1
        let r1 = say "%d" (open_cookie r)
        (ok, r2) ←
            ifl_get_device_byifindex fuel iflm.iflm_index (if named.0 then say "ERROR" r1 else r1)
        mac_of dev r2)
      else mac_of ifname (open_cookie r)
