-- ===== src/Findif.antt =====
-- `arping_lookupdev` of findif_getifaddrs.c: the interface whose network holds the target, by the
-- list that `getifaddrs` gives. What it prints is left out.
pub mod Fits
pub mod Longest
pub mod Best
use arping.Prelude.{
  ℕ, ◌+◌, Bool, Option, none, some, List, [], ◌∷◌, not, ◌||◌, ◌==◌, ltb, if◌then◌else◌, bit_and,
  take, Text, codes,
}
use arping.Host.Order.{Endian, ntohl}

-- `struct sockaddr_in`: whether its family is AF_INET, and `sin_addr.s_addr` as a word of the host.
pub record Sockaddr : Type 0 where
  pub inet : Bool
  pub s_addr : ℕ

-- `struct ifaddrs`: the three flags that are tested, and the pointers, which may be NULL.
pub record Ifaddr : Type 0 where
  pub iff_up : Bool
  pub iff_loopback : Bool
  pub iff_pointopoint : Bool
  pub ifa_addr : Option Sockaddr
  pub ifa_netmask : Option Sockaddr
  pub ifa_name : Option Text

-- The variables of the loop, and the static buffer `ifname`.
pub record Search : Type 0 where
  pub match_count : ℕ
  pub best_mask : ℕ
  pub ifname : Text

-- IFNAMSIZ - 1, the bytes of a name that the buffer keeps.
abbrev pub name_max : ℕ
name_max = 15

module _ (e : Endian) (dstip : ℕ) where
  -- `match_count++`, and a strictly longer mask replaces the best one.
  unfoldable pub improve : Search → Text → ℕ → Search
  improve s name mask =
      let counted = record s { match_count = s.match_count + 1 } in
      if ltb (ntohl e s.best_mask) (ntohl e mask)
      then record counted { best_mask = mask; ifname = take name_max name }
      else counted

  -- The tests that need the three pointers.
  unfoldable pub consider_present :
      Search → Ifaddr → Option Sockaddr → Option Sockaddr → Option Text → Search
  consider_present s cur (some addr) (some netmask) (some name) =
      if not addr.inet
      then s
      else if cur.iff_loopback || cur.iff_pointopoint
      then s
      else if not (bit_and addr.s_addr netmask.s_addr == bit_and dstip netmask.s_addr)
      then s
      else improve s name netmask.s_addr
  consider_present s cur _ _ _ = s

  -- One round of the loop.
  unfoldable pub consider : Search → Ifaddr → Search
  consider s cur =
      if not cur.iff_up then s else consider_present s cur cur.ifa_addr cur.ifa_netmask cur.ifa_name

  unfoldable pub consider_all : Search → List Ifaddr → Search
  consider_all s [] = s
  consider_all s (cur ∷ rest) = consider_all (consider s cur) rest

-- What is returned, `ebuf`, and the static buffer.
pub record Lookup : Type 0 where
  pub ret : Option Text
  pub ebuf : Text
  pub ifname : Text

unfoldable pub finish_lookup : Search → Lookup
finish_lookup s =
    if not (s.match_count == 0)
    then record { ret = some s.ifname; ebuf = []; ifname = s.ifname }
    else record {
      ret = none;
      ebuf = codes "No matching interface found using getifaddrs().";
      ifname = s.ifname;
    }

-- The list is `none` if `getifaddrs` fails; `error` is then the message for `ebuf`.
unfoldable pub arping_lookupdev : Endian → ℕ → Text → Text → Option (List Ifaddr) → Lookup
arping_lookupdev e dstip ifname error none = record { ret = none; ebuf = error; ifname = ifname }
arping_lookupdev e dstip ifname error (some ifa) =
    finish_lookup
      (consider_all e dstip (record { match_count = 0; best_mask = 0; ifname = ifname }) ifa)
