-- ===== src/Choose/Interface.antt =====
-- The interface that is used, if none is given.
use arping.Prelude.{ℕ, ◌≡◌, ◌<◌, ◌∙◌, ap, subst, false, none, some, List, Text, arith, take}
use mathlib.Core.List.{Memᴰ}
use arping.Host.Order.{Endian, ntohl}
use arping.State.{Globals}
use arping.Findif.{Ifaddr, arping_lookupdev, name_max}
use arping.Findif.Fits.{Fits}
use arping.Findif.Best.{IsLongest, arping_lookupdev-IsLongest}
use arping.Stage.{Stage, go_on}
use arping.Choose.{Devices, say_none, lookup_lan, or_default, odd_interface, find_interface}

odd_interface_out :
    (name : Text) (g : Globals)
    → odd_interface name g ≡ record g { out = (odd_interface name g).out }
unfolding odd_interface
odd_interface_out name g = ground arith

find_interface_found :
    (e : Endian) (devices : Devices) (s : Stage) (n : Text)
    → s.locals.ifname ≡ none
    → s.locals.dont_use_arping_lookupdev ≡ false
    → (arping_lookupdev e s.globals.dstip devices.buffer devices.error devices.getifaddrs).ret
      ≡ some n
    → find_interface e devices s
      ≡ go_on (record s {
        locals = record s.locals { ifname = some n };
        globals = odd_interface n s.globals;
      })
unfolding find_interface lookup_lan or_default say_none
find_interface_found e devices s n unset smart found = ground arith

-- Without -i and -F, and with an interface among those of `getifaddrs` whose network, of a mask that is
-- not zero, holds the target: `arping_main` goes on with the interface of the longest such mask, and
-- changes nothing else but what is printed.
pub find_interface-IsLongest :
    (e : Endian) (devices : Devices) (s : Stage) (is : List Ifaddr) (i : Ifaddr) (name : Text)
    (mask : ℕ)
    → s.locals.ifname ≡ none
    → s.locals.dont_use_arping_lookupdev ≡ false
    → devices.getifaddrs ≡ some is
    → Memᴰ i is
    → Fits s.globals.dstip i name mask
    → 0 < ntohl e mask
    → (n : Text) × (out : _) × (find_interface e devices s
        ≡ go_on (record s {
          locals = record s.locals { ifname = some n };
          globals = record s.globals { out = out };
        }))
      × IsLongest e s.globals.dstip is (some n)
find_interface-IsLongest e devices s is i name mask unset smart list m f positive =
    let g = s.globals in
    let best =
      arping_lookupdev-IsLongest e g.dstip devices.buffer devices.error is i name mask m f
        positive in
    let n : Text = take name_max best.name in
    (
      n,
      (odd_interface n g).out,
      find_interface_found e devices s n unset smart (
            ap (λ x. (arping_lookupdev e g.dstip devices.buffer devices.error x).ret) list
            ∙ best.returned)
          ∙ ap (λ x. go_on (record s { locals = record s.locals { ifname = some n }; globals = x }))
              (odd_interface_out n g),
      subst (IsLongest e g.dstip is) best.returned best,
    )
