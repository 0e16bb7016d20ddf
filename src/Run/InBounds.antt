-- ===== src/Run/InBounds.antt =====
-- The loop of packets reads only what was captured, in both modes.
use arping.Prelude.{ℕ, ◌+◌, ◌≡◌, ◌≢◌, ◌∙◌, subst, sym, refl, List, [], ◌∷◌, ℤ, arith, All-append}
use arping.Host.Order.{Endian}
use arping.Host.Clock.{Reading}
use arping.State.{Globals, getclock}
use arping.Recv.InBounds.{IsReadable, pingip_recv-Survives, pingmac_recv-Survives}
use arping.Await.{Ending, leave, again, fault, exit_1, ping_recv}
use arping.Await.Hears.{all_delivered}
use arping.Await.InBounds.{AllReadable, IsInBounds, EndsInBounds, ping_recv-EndsInBounds}
use arping.Send.{Libnet, Sender, pingip_send, pingmac_send, transmit, announce, stamp}
use arping.Wait.{wait_time}
use arping.Run.{Turn, Mode, broken, ping_ip, ping_mac, ping_loop}
use arping.Run.Handed.{delivered_in}

-- A handler that reads only what was captured, and a sender that leaves the VLAN tag alone.
pub record IsSafe {L : Type 0} (mode : Mode L) : Type 0 where
  pub recv : IsInBounds mode.recv
  pub send :
      (c : ℕ) (t : Turn) (s : Sender L) → (mode.send c t s).globals.vlan_tag ≡ s.globals.vlan_tag

pub ping_ip-IsSafe : {L : Type 0} (lib : Libnet L) (e : Endian) → IsSafe (ping_ip lib e)
unfolding pingip_send transmit announce stamp getclock
ping_ip-IsSafe lib e = record {
  recv = λ d g. pingip_recv-Survives e d.clock d.header d.packet g;
  send = λ c t s. ground arith;
}

pub ping_mac-IsSafe : {L : Type 0} (lib : Libnet L) (e : Endian) → IsSafe (ping_mac lib e)
unfolding pingmac_send transmit announce stamp getclock
ping_mac-IsSafe lib e = record {
  recv = λ d g. pingmac_recv-Survives e d.clock d.header d.packet g;
  send = λ c t s. ground arith;
}

wait_time-tag :
    (r : Reading) (deadline : ℤ) (packetwait : ℕ) (g : Globals)
    → (wait_time r deadline packetwait g).1.vlan_tag ≡ g.vlan_tag
unfolding wait_time getclock
wait_time-tag r deadline packetwait g = ground arith

module _ {L : Type 0} (mode : Mode L) (maxcount packetwait : ℕ) (deadline : ℤ)
    (safe : IsSafe mode) where
  abbrev waited : ℕ → Turn → Sender L → ℕ × Globals
  waited c t s = wait_time t.waited deadline packetwait (mode.send c t s).globals

  -- By the way the wait of the first turn ends.
  ping_loop-next :
      (c : ℕ) (t : Turn) (ts : List Turn) (s : Sender L) (tag : ℤ) (x : Ending)
      → ping_recv mode.recv (waited c t s).0 t.start t.has_fd t.rounds (waited c t s).1 ≡ x
      → EndsInBounds tag x
      → ((g : Globals)
          → g.vlan_tag ≡ tag
          → ping_loop mode maxcount packetwait deadline
              (c + 1)
              ts
              (record (mode.send c t s) { globals = g })
            ≢ broken)
      → ping_loop mode maxcount packetwait deadline c (t ∷ ts) s ≢ broken
  unfolding ping_loop
  ping_loop-next c t ts s tag (leave g) e h rest q = ground (arith, rest g h)
  ping_loop-next c t ts s tag (again g) e h rest q = ground arith
  ping_loop-next c t ts s tag (exit_1 g) e h rest q = ground arith
  ping_loop-next c t ts s tag fault e h rest q = elim h [ ]

  pub ping_loop_in_bounds :
      (c : ℕ) (ts : List Turn) (s : Sender L)
      → AllReadable s.globals.vlan_tag (delivered_in ts)
      → ping_loop mode maxcount packetwait deadline c ts s ≢ broken
  unfolding ping_loop
  ping_loop_in_bounds c [] s h = λ q. ground arith
  ping_loop_in_bounds c (t ∷ ts) s h =
      let (w, g1) = waited c t s in
      let kept : g1.vlan_tag ≡ s.globals.vlan_tag =
        wait_time-tag t.waited deadline packetwait (mode.send c t s).globals ∙ safe.send c t s in
      let (h1, h2) =
        All-append (λ d. IsReadable s.globals.vlan_tag d.packet) (all_delivered t.rounds)
          (delivered_in ts) h in
      ping_loop-next c t ts s s.globals.vlan_tag _ refl
        (subst (λ tag. EndsInBounds tag (ping_recv mode.recv w t.start t.has_fd t.rounds g1)) kept
          (ping_recv-EndsInBounds mode.recv safe.recv w t.start t.has_fd t.rounds g1
            (subst (λ tag. AllReadable tag (all_delivered t.rounds)) (sym kept) h1)))
        (λ g same.
          ping_loop_in_bounds (c + 1) ts (record (mode.send c t s) { globals = g })
            (subst (λ tag. AllReadable tag (delivered_in ts)) (sym same) h2))
