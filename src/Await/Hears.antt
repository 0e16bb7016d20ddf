-- ===== src/Await/Hears.antt =====
-- The packets that `pcap_dispatch` hands to a handler one after the other.
use arping.Prelude.{
  suc, ◌+◌, ◌≤◌, ◌<◌, ◌≡◌, ap, subst, refl, Bool, some, List, [], ◌∷◌, ◌++◌, arith, length, All,
}
use arping.Host.Order.{Packet}
use arping.Host.Clock.{Reading}
use arping.State.{Output, Globals}
use arping.Recv.{PktHdr}
use arping.Recv.Ip.Senders.{IsCaptured}
use arping.Send.Counts.{sent}
use arping.Await.{Handler, Delivery, Select, ready, Round, dispatch}

-- What a handler is to one who listens: he keeps a list of the replies, the newest first, for which the
-- globals stand; a packet adds one at most, printing and sending add none.
pub record Listener (A : Type 0) (func : Handler) : Type 1 where
  pub Heard : Packet → List A → List A → Type 0
  pub Stands : Globals → List A → Type 0
  pub hears_one :
      (r : Reading) (h : PktHdr) (packet : Packet) (g : Globals) (ms : List A)
      → IsCaptured h packet
      → length ms < 4294967295
      → Stands g ms
      → (g' : Globals) × (ms' : List A) × (func r h packet g ≡ some g')
        × Heard packet ms ms'
        × Stands g' ms'
  pub prints :
      (g : Globals) (ms : List A) (out : List Output) (die : Bool)
      → Stands g ms
      → Stands (record g { out = out; time_to_die = die }) ms
  pub sends :
      (g : Globals) (ms : List A) (die : Bool) (after : Reading) (out : List Output)
      → Stands g ms
      → Stands (sent die after g out) ms
  pub grows :
      (packet : Packet) (ms ms' : List A) → Heard packet ms ms' → length ms' ≤ suc (length ms)

-- Packets one after the other, from the first to the last.
pub data Hears {A : Type 0} {func : Handler} (li : Listener A func)
    : List Delivery → List A → List A → Type 0 where
  done_hearing : {ms ms' : List A} → ms' ≡ ms → Hears li [] ms ms'
  hears :
      {d : Delivery} {ds : List Delivery} {ms ms1 ms' : List A}
      → li.Heard d.packet ms ms1
      → Hears li ds ms1 ms'
      → Hears li (d ∷ ds) ms ms'

abbrev pub AllCaptured : List Delivery → Type 0
AllCaptured ds = All (λ d. IsCaptured d.header d.packet) ds

-- What the rounds deliver, if every one of them is made.
abbrev pub delivered : Select → List Delivery
delivered (ready ds) = ds
delivered _ = []

abbrev pub all_delivered : List Round → List Delivery
all_delivered [] = []
all_delivered (rd ∷ rds) = delivered rd.select ++ all_delivered rds

pub Hears-length :
    {A : Type 0} {func : Handler} (li : Listener A func) (ds : List Delivery) (ms ms' : List A)
    → Hears li ds ms ms'
    → length ms' ≤ length ms + length ds
Hears-length li ds ms ms' (done_hearing q) = omega (arith, ap length q)
Hears-length li (d ∷ ds) ms ms' (hears {ms1 = ms1} h t) =
    omega (arith, li.grows d.packet ms ms1 h, Hears-length li ds ms1 ms' t)

pub Hears-append :
    {A : Type 0} {func : Handler} (li : Listener A func) (ds : List Delivery) (es : List Delivery)
    (ms ms1 ms' : List A)
    → Hears li ds ms ms1
    → Hears li es ms1 ms'
    → Hears li (ds ++ es) ms ms'
Hears-append li ds es ms ms1 ms' (done_hearing q) t = subst (λ x. Hears li es x ms') q t
Hears-append li (d ∷ ds) es ms ms1 ms' (hears {ms1 = ms2} h r) t =
    hears h (Hears-append li ds es ms2 ms1 ms' r t)

module _ {A : Type 0} {func : Handler} (li : Listener A func) where
  pub dispatch-Hears :
      (ds : List Delivery) (g : Globals) (ms : List A)
      → AllCaptured ds
      → length ms + length ds < 4294967296
      → li.Stands g ms
      → (g' : Globals) × (ms' : List A) × (dispatch func ds g ≡ some g')
        × Hears li ds ms ms'
        × li.Stands g' ms'
  unfolding dispatch
  dispatch-Hears [] g ms c room ref = (g, ms, refl, done_hearing refl, ref)
  dispatch-Hears (d ∷ ds) g ms (c, cs) room ref =
      let (g1, ms1, q, h, ref1) = li.hears_one d.clock d.header d.packet g ms c (omega arith) ref in
      let (g', ms', q', t, ref') =
        dispatch-Hears ds g1 ms1 cs (omega (arith, li.grows d.packet ms ms1 h)) ref1 in
      (g', ms', rw q q', hears h t, ref')
