-- ===== src/Recv/Accept/Duplicates.antt =====
-- `numrecvd`, `lastreplymac` and `dupfound` after any sequence of replies: each reply is compared
-- with the one before it only, and that finds every pair of different senders.
use arping.Prelude.{
  suc, ◌<◌, ◌≡◌, ◌≢◌, ◌↔◌, refl, ap, sym, ◌∙◌, Bool, true, false, not, ◌&&◌, List, [], ◌∷◌, arith,
  length, Bool-cases, inl, inr,
}
use mathlib.Core.List.{Memᴰ}
use arping.Mac.{EthAddr, eth_eq, eth_eq_iff}
use arping.State.{Globals, uint_mod}
use arping.Stats.{update_stats}
use arping.Recv.Accept.{Report, accept_ip, remember, count_reply}

-- The state after these replies, the newest first.
abbrev pub replies_after : Globals → List Report → Globals
replies_after g [] = g
replies_after g (p ∷ ps) = accept_ip p.len p.mac p.ip p.arrival (replies_after g ps)

abbrev pub macs : List Report → List EthAddr
macs [] = []
macs (p ∷ ps) = p.mac ∷ macs ps

length-macs : (ps : List Report) → length (macs ps) ≡ length ps
length-macs [] = refl
length-macs (p ∷ ps) = ap suc (length-macs ps)

-- Two of the replies have different senders.
pub record Differ (ms : List EthAddr) : Type 0 where
  pub one : EthAddr
  pub other : EthAddr
  pub one_mem : Memᴰ one ms
  pub other_mem : Memᴰ other ms
  pub ne : one ≢ other

unfoldable pub all_same : EthAddr → List EthAddr → Bool
all_same m [] = true
all_same m (x ∷ ms) = eth_eq x m && all_same m ms

all_same-eq : (m x : EthAddr) (ms : List EthAddr) → all_same m ms ≡ true → Memᴰ x ms → x ≡ m
unfolding all_same
all_same-eq m x [] h t = elim t [ ]
all_same-eq m x (y ∷ ms) h (Memᴰ.head e) = e ∙ ground (arith, eth_eq_iff y m)
all_same-eq m x (y ∷ ms) h (Memᴰ.tail t) = all_same-eq m x ms (ground arith) t

all_same-ne :
    (m : EthAddr) (ms : List EthAddr) → all_same m ms ≡ false → (x : EthAddr) × Memᴰ x ms × (x ≢ m)
unfolding all_same
all_same-ne m [] h = cc
all_same-ne m (x ∷ ms) h = elim (Bool-cases (eth_eq x m)) [
  | inl same ↦ let (y, t, ne) = all_same-ne m ms (ground arith) in (y, Memᴰ.tail t, ne)
  | inr other ↦ (x, Memᴰ.head refl, λ e. ground (arith, eth_eq_iff x m))
]

-- What the state remembers of the senders, the newest first.
abbrev pub Remembers : Globals → List EthAddr → Type 0
Remembers g [] = (g.numrecvd ≡ 0) × (g.dupfound ≡ false)
Remembers g (m ∷ ms) =
    (g.numrecvd ≡ suc (length ms)) × (g.lastreplymac ≡ m) × (g.dupfound ≡ not (all_same m ms))

pub accept_ip-Remembers :
    (g : Globals) (p : Report) (ms : List EthAddr)
    → length ms < 4294967295
    → Remembers g ms
    → Remembers (accept_ip p.len p.mac p.ip p.arrival g) (p.mac ∷ ms)
unfolding accept_ip remember count_reply update_stats all_same
accept_ip-Remembers g p [] room h = ground arith
accept_ip-Remembers g p (m ∷ ms) room h = elim (Bool-cases (eth_eq m p.mac)) [
  | inl same ↦ let e : m ≡ p.mac = (eth_eq_iff m p.mac).0 same in ground arith
  | inr other ↦ ground arith
]

replies_after-Remembers :
    (g : Globals) (ps : List Report)
    → g.numrecvd ≡ 0
    → g.dupfound ≡ false
    → length ps < uint_mod
    → Remembers (replies_after g ps) (macs ps)
replies_after-Remembers g [] none_yet no_dup room = (none_yet, no_dup)
replies_after-Remembers g (p ∷ ps) none_yet no_dup room =
    accept_ip-Remembers (replies_after g ps) p (macs ps) (omega (arith, length-macs ps))
      (replies_after-Remembers g ps none_yet no_dup (omega arith))

pub Remembers-numrecvd : (g : Globals) (ms : List EthAddr) → Remembers g ms → g.numrecvd ≡ length ms
Remembers-numrecvd g [] r = r.0
Remembers-numrecvd g (m ∷ ms) r = r.0

pub Remembers-Differ :
    (g : Globals) (ms : List EthAddr) → Remembers g ms → (g.dupfound ≡ true) ↔ Differ ms
Remembers-Differ g [] r = (λ h. cc, λ d. elim d.one_mem [ ])
Remembers-Differ g (m ∷ ms) r = (found, finds)
  where
    found : g.dupfound ≡ true → Differ (m ∷ ms)
    found h =
        let (x, t, ne) = all_same-ne m ms (ground arith) in
        record { one = x; other = m; one_mem = Memᴰ.tail t; other_mem = Memᴰ.head refl; ne = ne }

    same : all_same m ms ≡ true → (x : EthAddr) → Memᴰ x (m ∷ ms) → x ≡ m
    same h x (Memᴰ.head e) = e
    same h x (Memᴰ.tail t) = all_same-eq m x ms h t

    finds : Differ (m ∷ ms) → g.dupfound ≡ true
    finds d = elim (Bool-cases (all_same m ms)) [
      | inl h ↦ absurd (d.ne (same h d.one d.one_mem ∙ sym (same h d.other d.other_mem)))
      | inr h ↦ ground arith
    ]

-- After fewer than 2^32 replies, from a state with none and no duplicate, `numrecvd` is their
-- number, and `dupfound` is set exactly if two of them, any two, have different senders.
pub replies_after-dupfound :
    (g : Globals) (ps : List Report)
    → g.numrecvd ≡ 0
    → g.dupfound ≡ false
    → length ps < uint_mod
    → ((replies_after g ps).numrecvd ≡ length ps)
      × (((replies_after g ps).dupfound ≡ true) ↔ Differ (macs ps))
replies_after-dupfound g ps none_yet no_dup room =
    let r = replies_after-Remembers g ps none_yet no_dup room in
    let last = replies_after g ps in
    (Remembers-numrecvd last (macs ps) r ∙ length-macs ps, Remembers-Differ last (macs ps) r)
