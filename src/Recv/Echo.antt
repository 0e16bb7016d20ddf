-- ===== src/Recv/Echo.antt =====
-- `pingmac_recv` of arping.c. The Ethernet header is taken to be gone: the IPv4 header stands where
-- it would be, and the addresses printed are the program's own.
use arping.Prelude.{
  ℕ, ◌+◌, ◌≤◌, ◌<◌, ◌≡◌, ◌≢◌, refl, Option, some, List, [], ◌∷◌, ◌++◌, not, ◌==◌, ◌-ℤ◌,
  if◌then◌else◌, arith, length, get_elem?_total, All, All-get_elem?,
}
use arping.Host.Order.{Endian, Packet, htons, word16, word32, load8, load16, load32, ◌>>=◌}
use arping.Host.Clock.{Timespec, Reading, timespec2dbl}
use arping.State.{
  Display, normal, quiet, raw, rraw, rawraw, dot, Output, bang, newline, echo, show_mac, show_ip,
  show_mac_ip, Globals, note, getclock, clock_time, timed,
}
use arping.Stats.{update_stats}
use arping.Recv.{PktHdr, shift_ether, ipv4_h}
use arping.Recv.Accept.{beeped, count_reply}
use arping.Recv.Ip.Outcome.{Ignored}

abbrev pub icmp_echoreply : ℕ
icmp_echoreply = 0

-- The two switches; `hip->ip_src` is at offset 12 and `hicmp->icmp_seq` at offset 6.
unfoldable pub shown_echo :
    Endian → Display → ℕ → Packet → Timespec → Globals → Option (List Output)
shown_echo e quiet len packet arrival g = some []
shown_echo e dot len packet arrival g = some (bang ∷ [])
shown_echo e normal len packet arrival g = do
  src ← load32 e packet (shift_ether + 12)
  seq ← load16 e packet (shift_ether + ipv4_h + 6)
  some (echo len src g.srcmac (htons e seq) g.lastpacketsent arrival ∷ newline ∷ [])
shown_echo e raw len packet arrival g = do
  src ← load32 e packet (shift_ether + 12)
  some (show_ip src ∷ newline ∷ [])
shown_echo e rraw len packet arrival g = some (show_mac g.srcmac ∷ newline ∷ [])
shown_echo e rawraw len packet arrival g = do
  src ← load32 e packet (shift_ether + 12)
  some (show_mac_ip g.srcmac src ∷ newline ∷ [])

unfoldable pub pingmac_recv : Endian → Reading → PktHdr → Packet → Globals → Option Globals
pingmac_recv e r h packet g = do
  let (arrival, g1) = getclock r (note g 2 "arping: received response for mac ping")
  type ← load8 packet (shift_ether + ipv4_h)
  if not (htons e type == icmp_echoreply) then some g1 else do
    let g2 = update_stats g1 (timespec2dbl arrival -ℤ timespec2dbl g1.lastpacketsent)
    shown ← shown_echo e g2.display h.len packet arrival g2
    some (count_reply (record g2 { out = g2.out ++ beeped g2.beep ++ shown }))

htons-eq-zero : (e : Endian) (x : ℕ) → x < 256 → htons e x ≡ 0 → x ≡ 0
unfolding htons
htons-eq-zero Endian.little x h q = omega arith
htons-eq-zero Endian.big x h q = q

htons-zero : (e : Endian) → htons e 0 ≡ 0
unfolding htons
htons-zero Endian.little = refl
htons-zero Endian.big = refl

pub load32_total :
    (e : Endian) (packet : Packet) (i : ℕ)
    → i + 3 < length packet
    → (v : ℕ) × (load32 e packet i ≡ some v)
load32_total e packet i h =
    let (a, pa) = get_elem?_total packet i (omega arith) in
    let (b, pb) = get_elem?_total packet (i + 1) (omega arith) in
    let (c, pc) = get_elem?_total packet (i + 2) (omega arith) in
    let (d, pd) = get_elem?_total packet (i + 3) h in (word32 e a b c d, rw (pa, pb, pc, pd) refl)

module _ (e : Endian) (len : ℕ) (packet : Packet) (arrival : Timespec) (g : Globals)
    (long : 50 ≤ length packet) where
  source : (v : ℕ) × (load32 e packet 34 ≡ some v)
  source = load32_total e packet 34 (omega arith)

  -- With 50 bytes there is always something to print.
  pub shown_echo_total :
      (d : Display) → (o : List Output) × (shown_echo e d len packet arrival g ≡ some o)
  unfolding shown_echo
  shown_echo_total quiet = ([], refl)
  shown_echo_total dot = (bang ∷ [], refl)
  shown_echo_total rraw = (show_mac g.srcmac ∷ newline ∷ [], refl)
  shown_echo_total raw = let (v, at) = source in (show_ip v ∷ newline ∷ [], rw at refl)
  shown_echo_total rawraw =
      let (v, at) = source in (show_mac_ip g.srcmac v ∷ newline ∷ [], rw at refl)
  shown_echo_total normal =
      let (v, at) = source in
      let (a, pa) = get_elem?_total packet 48 (omega arith) in
      let (b, pb) = get_elem?_total packet 49 (omega arith) in
      (
        echo len v g.srcmac (htons e (word16 e a b)) g.lastpacketsent arrival ∷ newline ∷ [],
        rw (at, pa, pb) refl,
      )

pingmac_recv_lem :
    (e : Endian) (r : Reading) (h : PktHdr) (packet : Packet) (g : Globals)
    → 50 ≤ length packet
    → All (λ b. b < 256) packet
    → (load8 packet 42 ≡ some icmp_echoreply
        → (o : List Output) × (pingmac_recv e r h packet g
            ≡ some (
                count_reply (
                  update_stats
                    (record (timed r g) { out = o })
                    (timespec2dbl (clock_time r) -ℤ timespec2dbl g.lastpacketsent)))))
      × (load8 packet 42 ≢ some icmp_echoreply
          → (o : List Output) × (pingmac_recv e r h packet g
              ≡ some (record (timed r g) { out = o })))
unfolding pingmac_recv getclock update_stats
pingmac_recv_lem e r h packet g long bytes = (counted, dropped)
  where
    start : Globals
    start = (getclock r (note g 2 "arping: received response for mac ping")).1

    measured : Globals
    measured = update_stats start (timespec2dbl (clock_time r) -ℤ timespec2dbl start.lastpacketsent)

    counted :
        load8 packet 42 ≡ some icmp_echoreply
        → (o : List Output) × (pingmac_recv e r h packet g
            ≡ some (
                count_reply (
                  update_stats
                    (record (timed r g) { out = o })
                    (timespec2dbl (clock_time r) -ℤ timespec2dbl g.lastpacketsent))))
    counted reply =
        let (o, shown) = shown_echo_total e h.len packet (clock_time r) measured long g.display in
        (measured.out ++ beeped g.beep ++ o, rw (reply, htons-zero e, shown) refl)

    dropped :
        load8 packet 42 ≢ some icmp_echoreply
        → (o : List Output) × (pingmac_recv e r h packet g ≡ some (record (timed r g) { out = o }))
    dropped other =
        let (t, at) = get_elem?_total packet 42 (omega arith) in
        let small : t < 256 = All-get_elem? (λ b. b < 256) packet 42 bytes at in
        (start.out, ground (arith, htons-eq-zero e t))

-- `pingmac_recv` counts an ICMP packet of type 0, of which 50 bytes or more were captured: the time
-- since the last packet sent goes into the statistics, and the replies are one more. Nothing else
-- changes but what is printed. (A failed clock ends the program too.)
pub pingmac_recv-reply :
    (e : Endian) (r : Reading) (h : PktHdr) (packet : Packet) (g : Globals)
    → 50 ≤ length packet
    → All (λ b. b < 256) packet
    → load8 packet 42 ≡ some icmp_echoreply
    → (o : List Output) × (pingmac_recv e r h packet g
        ≡ some (
            count_reply (
              update_stats
                (record (timed r g) { out = o })
                (timespec2dbl (clock_time r) -ℤ timespec2dbl g.lastpacketsent))))
pingmac_recv-reply e r h packet g long bytes = (pingmac_recv_lem e r h packet g long bytes).0

-- In `pingmac_recv` a packet whose ICMP type is not 0, of which 50 bytes or more were captured,
-- changes nothing but what is printed. (A failed clock ends the program.)
pub pingmac_recv-other :
    (e : Endian) (r : Reading) (h : PktHdr) (packet : Packet) (g : Globals)
    → 50 ≤ length packet
    → All (λ b. b < 256) packet
    → load8 packet 42 ≢ some icmp_echoreply
    → Ignored (timed r g) (pingmac_recv e r h packet g)
pingmac_recv-other e r h packet g long bytes = (pingmac_recv_lem e r h packet g long bytes).1
