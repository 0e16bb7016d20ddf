-- ===== src/Tests/Hosts.antt =====
-- Lists of interfaces for `arping_lookupdev`, and times for `fixup_timespec`.
use arping.Prelude.{
  ℕ, ◌<◌, ◌≡◌, refl, true, false, List, [], ◌∷◌, some, arith, Option, codes, Text, pos, negsuc,
}
use mathlib.Core.List.{Memᴰ}
use arping.Host.Order.{Endian, ntohl}
use arping.Host.Clock.{Timespec, timespec2dbl, fixup_timespec, IsNormal, fixup_timespec-IsNormal}
use arping.Findif.{Sockaddr, Ifaddr, arping_lookupdev}
use arping.Findif.Fits.{Fits, Fit}
use arping.Findif.Best.{IsLongest, arping_lookupdev-IsLongest, arping_lookupdev-zero_mask}

abbrev pub inet : ℕ → Option Sockaddr
inet a = some (record { inet = true; s_addr = a })

abbrev pub interface : Text → ℕ → ℕ → Ifaddr
interface name addr mask = record {
  iff_up = true;
  iff_loopback = false;
  iff_pointopoint = false;
  ifa_addr = inet addr;
  ifa_netmask = inet mask;
  ifa_name = some name;
}

-- 10.0.0.1/8 and 10.1.0.1/16, as words of a big-endian host; the target is 10.1.0.5.
abbrev pub em0 : Ifaddr
em0 = interface (codes "em0") 0x0A000001 0xFF000000

abbrev pub em1 : Ifaddr
em1 = interface (codes "em1") 0x0A010001 0xFFFF0000

abbrev pub interfaces : List Ifaddr
interfaces = em0 ∷ em1 ∷ []

abbrev pub dstip : ℕ
dstip = 0x0A010005

pub em1-Fits : Fits dstip em1 (codes "em1") 0xFFFF0000
em1-Fits = record {
  addr = record { inet = true; s_addr = 0x0A010001 };
  netmask = record { inet = true; s_addr = 0xFFFF0000 };
  is_up = refl;
  no_loopback = refl;
  no_pointopoint = refl;
  has_addr = refl;
  has_netmask = refl;
  has_name = refl;
  is_inet = refl;
  mask_is = refl;
  on_net = refl;
}

pub em1_mask : 0 < ntohl Endian.big 0xFFFF0000
unfolding ntohl
em1_mask = omega arith

arping_lookupdev-IsLongest_example :
    IsLongest Endian.big dstip interfaces
      (arping_lookupdev Endian.big dstip [] [] (some interfaces)).ret
arping_lookupdev-IsLongest_example =
    arping_lookupdev-IsLongest Endian.big dstip [] [] interfaces em1 (codes "em1") 0xFFFF0000
      (Memᴰ.tail (Memᴰ.head refl)) em1-Fits em1_mask

-- An interface that is down.
abbrev down : Ifaddr
down = record em1 { iff_up = false }

down-unfit : (i : Ifaddr) → Memᴰ i (down ∷ []) → ¬ Fit Endian.big dstip i
unfolding Fit
down-unfit i (Memᴰ.head e) (name, mask, f) = ground (arith, f.is_up)
down-unfit i (Memᴰ.tail t) f = elim t [ ]

abbrev whole : Ifaddr
whole = interface (codes "em2") 0x0A010001 0

whole-Fits : Fits dstip whole (codes "em2") 0
whole-Fits = record {
  addr = record { inet = true; s_addr = 0x0A010001 };
  netmask = record { inet = true; s_addr = 0 };
  is_up = refl;
  no_loopback = refl;
  no_pointopoint = refl;
  has_addr = refl;
  has_netmask = refl;
  has_name = refl;
  is_inet = refl;
  mask_is = refl;
  on_net = refl;
}

ntohl-zero : ntohl Endian.big 0 ≡ 0
unfolding ntohl
ntohl-zero = refl

whole_zero :
    (j : Ifaddr) (other : Text) (mask : ℕ)
    → Memᴰ j (whole ∷ [])
    → Fits dstip j other mask
    → ntohl Endian.big mask ≡ 0
unfolding ntohl
whole_zero j other mask (Memᴰ.head e) f = ground (arith, f.has_netmask, f.mask_is)
whole_zero j other mask (Memᴰ.tail t) f = elim t [ ]

arping_lookupdev-zero_mask_example :
    (arping_lookupdev Endian.big dstip [] [] (some (whole ∷ []))).ret ≡ some []
arping_lookupdev-zero_mask_example =
    arping_lookupdev-zero_mask Endian.big dstip [] [] (whole ∷ []) whole (codes "em2") 0
      (Memᴰ.head refl) whole-Fits whole_zero

-- 3 seconds less 1.5 seconds, in nanoseconds.
abbrev borrowed : Timespec
borrowed = record { tv_sec = pos 3; tv_nsec = negsuc 1499999999 }

fixup_timespec-IsNormal_example :
    IsNormal 1000000000 (fixup_timespec borrowed)
    × (timespec2dbl (fixup_timespec borrowed) ≡ timespec2dbl borrowed)
fixup_timespec-IsNormal_example =
    fixup_timespec-IsNormal 1000000000 borrowed (omega arith) (omega arith)
