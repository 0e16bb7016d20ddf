-- ===== src/Main/Plain.antt =====
-- The steps between the options and the interface that do not call `do_libnet_init`.
use arping.Prelude.{
  ℕ, ◌≤◌, ◌≡◌, ◌≢◌, refl, sym, subst, Bool, true, false, if◌then◌else◌, List, Text, arith,
}
use arping.Host.Order.{Endian}
use arping.State.{Output}
use arping.Setup.Lives.{IsNet}
use arping.Options.Settle.{
  settle_srcmac, settle_dstmac, resolve_srcip, resolve_dstip, settle_vlan, unbuffer, settle_prio,
  settle_count,
}
use arping.Stage.{Stage, Step, Site, go_on, quit, fault, Lookups, with_libnet}
use arping.Stage.Calls.{Keeps, Lives, with_libnet-Lives}
use arping.Choose.{
  Devices, or_default, lookup_lan, lookup_default, say_none, odd_interface, target_self,
  name_target, resolve_name, resolve_target, read_mac, parse_target, set_target, find_interface,
}

-- A step without a call of `do_libnet_init`.
pub record IsPlain (s : Stage) (x : Step) : Type 0 where
  pub kept : (s' : Stage) → x ≡ go_on s' → (s'.net ≡ s.net) × Keeps s s'
  pub status : (n : ℕ) (out : List Output) → x ≡ quit n out → n ≡ 1
  pub sound : x ≢ fault

-- What such a step keeps, as a product.
abbrev Same : Stage → Stage → Type 0
Same s s' =
    (s'.net ≡ s.net)
    × (s'.locals.packetwait ≡ s.locals.packetwait)
    × (s'.locals.maxcount ≤ s.locals.maxcount)
    × (s'.globals.vlan_tag ≡ s.globals.vlan_tag)
    × (s'.globals.numrecvd ≡ s.globals.numrecvd)
    × (s'.globals.dupfound ≡ s.globals.dupfound)
    × (s'.globals.finddup ≡ s.globals.finddup)

Same-IsPlain :
    (s : Stage) (x : Step)
    → ((s' : Stage) → x ≡ go_on s' → Same s s')
    → ((n : ℕ) (out : List Output) → x ≡ quit n out → n ≡ 1)
    → x ≢ fault
    → IsPlain s x
Same-IsPlain s x a b c = record {
  kept = λ s' q.
      let (net, packetwait, maxcount, tag, numrecvd, dupfound, finddup) = a s' q in
      (
        net,
        record {
          packetwait = packetwait;
          maxcount = maxcount;
          tag = tag;
          numrecvd = numrecvd;
          dupfound = dupfound;
          finddup = finddup;
        },
      );
  status = b;
  sound = c;
}

pub IsPlain-Lives :
    (fuel : ℕ) (s : Stage) (x : Step) → IsPlain s x → IsNet fuel s.net → Lives fuel s x
IsPlain-Lives fuel s (go_on s') p h =
    let (net, keeps) = p.kept s' refl in (subst (IsNet fuel) (sym net) h, keeps)
IsPlain-Lives fuel s (quit n out) p h = p.status n out refl
IsPlain-Lives fuel s fault p h = absurd (p.sound refl)

pub if-Lives :
    (fuel : ℕ) (s : Stage) (x y : Step) (b : Bool)
    → Lives fuel s x
    → Lives fuel s y
    → Lives fuel s (if b then x else y)
if-Lives fuel s x y true h k = h
if-Lives fuel s x y false h k = k

module _ (s : Stage) where
  pub settle_srcmac-IsPlain : IsPlain s (settle_srcmac s)
  unfolding settle_srcmac
  settle_srcmac-IsPlain =
      Same-IsPlain s (settle_srcmac s) (λ s' q. ground arith) (λ n out q. ground arith)
        (λ q. ground arith)

  pub settle_dstmac-IsPlain : IsPlain s (settle_dstmac s)
  unfolding settle_dstmac
  settle_dstmac-IsPlain =
      Same-IsPlain s (settle_dstmac s) (λ s' q. ground arith) (λ n out q. ground arith)
        (λ q. ground arith)

  pub settle_vlan-IsPlain : (ok : Bool) → IsPlain s (settle_vlan ok s)
  unfolding settle_vlan unbuffer settle_prio settle_count
  settle_vlan-IsPlain ok =
      Same-IsPlain s (settle_vlan ok s) (λ s' q. ground arith) (λ n out q. ground arith)
        (λ q. ground arith)

  pub target_self-IsPlain : (addr : ℕ) → IsPlain s (target_self addr s)
  unfolding target_self
  target_self-IsPlain addr =
      Same-IsPlain s (target_self addr s) (λ s' q. ground arith) (λ n out q. ground arith)
        (λ q. ground arith)

-- A step that is a call of `do_libnet_init` before one without.
pub called-Lives :
    (w : Lookups) (site : Site) (s : Stage) (k : Stage → Step) (x : Step)
    → ((s1 : Stage) → IsPlain s1 (k s1))
    → IsNet w.fuel s.net
    → x ≡ with_libnet w site s k
    → Lives w.fuel s x
called-Lives w site s k x plain h e =
    subst (Lives w.fuel s) (sym e)
      (with_libnet-Lives w site s k h (λ s1. IsPlain-Lives w.fuel s1 (k s1) (plain s1)))

pub go_on-IsPlain : (s : Stage) → IsPlain s (go_on s)
go_on-IsPlain s =
    Same-IsPlain s (go_on s) (λ s' q. ground arith) (λ n out q. ground arith) (λ q. ground arith)

module _ (w : Lookups) (args : List Text) (s : Stage) where
  pub resolve_srcip-IsPlain : (text : Text) → IsPlain s (resolve_srcip w text s)
  unfolding resolve_srcip
  resolve_srcip-IsPlain text =
      Same-IsPlain s (resolve_srcip w text s) (λ s' q. ground arith) (λ n out q. ground arith)
        (λ q. ground arith)

  pub resolve_dstip-IsPlain : (text : Text) → IsPlain s (resolve_dstip w text s)
  unfolding resolve_dstip
  resolve_dstip-IsPlain text =
      Same-IsPlain s (resolve_dstip w text s) (λ s' q. ground arith) (λ n out q. ground arith)
        (λ q. ground arith)

  pub name_target-IsPlain : IsPlain s (name_target w args s)
  unfolding name_target
  name_target-IsPlain =
      Same-IsPlain s (name_target w args s) (λ s' q. ground arith) (λ n out q. ground arith)
        (λ q. ground arith)

  pub resolve_target-IsPlain : IsPlain s (resolve_target w args s)
  unfolding resolve_target resolve_name
  resolve_target-IsPlain =
      Same-IsPlain s (resolve_target w args s) (λ s' q. ground arith) (λ n out q. ground arith)
        (λ q. ground arith)

  pub read_mac-IsPlain : (a : Text) → IsPlain s (read_mac w args a s)
  unfolding read_mac
  read_mac-IsPlain a =
      Same-IsPlain s (read_mac w args a s) (λ s' q. ground arith) (λ n out q. ground arith)
        (λ q. ground arith)

  pub parse_target-IsPlain : IsPlain s (parse_target w args s)
  unfolding parse_target read_mac
  parse_target-IsPlain =
      Same-IsPlain s (parse_target w args s) (λ s' q. ground arith) (λ n out q. ground arith)
        (λ q. ground arith)

  pub set_target-IsPlain : IsPlain s (set_target w args s)
  unfolding set_target
  set_target-IsPlain =
      Same-IsPlain s (set_target w args s) (λ s' q. ground arith) (λ n out q. ground arith)
        (λ q. ground arith)

module _ (e : Endian) (devices : Devices) (s : Stage) where
  pub find_interface-IsPlain : IsPlain s (find_interface e devices s)
  unfolding find_interface or_default lookup_lan lookup_default say_none odd_interface
  find_interface-IsPlain =
      Same-IsPlain s (find_interface e devices s) (λ s' q. ground arith) (λ n out q. ground arith)
        (λ q. ground arith)
