-- ===== src/Run/Echoes.antt =====
-- A whole run of `arping_main` that pings a MAC address: which echo replies it hears, and its exit status.
use arping.Prelude.{ℕ, ◌<◌, ◌≡◌, ◌↔◌, refl, true, false, List, [], ℤ, arith, length}
use arping.Host.Order.{Endian, Packet}
use arping.State.{Globals, uint_mod}
use arping.Await.Hears.{Hears, AllCaptured}
use arping.Await.Echoes.{Counts, echoes_heard}
use arping.Send.{Libnet, Sender}
use arping.Send.Counts.{pingmac_send_lem}
use arping.Run.{Turn, ping_mac, ping_loop, exit_status}
use arping.Run.Turns.{Sends}
use arping.Run.Handed.{delivered_in, handed_run}
use arping.Run.Heard.{GlobalsOf, ping_loop-Concluded}

pub ping_mac-Sends : {L : Type 0} (lib : Libnet L) (e : Endian) → Sends (ping_mac lib e)
ping_mac-Sends lib e c t s =
    let (out, q) = pingmac_send_lem lib t.rand c t.before t.after s in (_, out, q)

-- What the exit status says of the replies: with -d nothing.
pub record IsMacStatus (g : Globals) (packets : List Packet) : Type 0 where
  pub replies : g.numrecvd ≡ length packets
  pub duplicates : g.finddup ≡ true → exit_status g ≡ 0
  pub any : g.finddup ≡ false → (exit_status g ≡ 0) ↔ (0 < length packets)

pub Counts-IsMacStatus :
    (start g : Globals) (packets : List Packet) → Counts start g packets → IsMacStatus g packets
unfolding exit_status
Counts-IsMacStatus start g packets c = record {
  replies = c.numrecvd;
  duplicates = λ find. let no_dup = c.dupfound in ground arith;
  any = λ find. let n = c.numrecvd in ground arith;
}

-- A run that pings a MAC address, from a state with no reply and no duplicate, over packets of which 54
-- bytes or more were captured, fewer than 2^32 in all, reads no byte that was not captured. At its end, or
-- where it stands, `numrecvd` is the number of the packets with the ICMP type of an echo reply among those
-- of the rounds that it has made, each counted once. Without -d the exit status is then 0 exactly if there
-- was one; with -d it is 0 in any case.
pub ping_loop-IsMacStatus :
    {L : Type 0} (lib : Libnet L) (e : Endian) (maxcount packetwait : ℕ) (deadline : ℤ)
    (ts : List Turn) (s : Sender L)
    → s.globals.numrecvd ≡ 0
    → s.globals.dupfound ≡ false
    → AllCaptured (delivered_in ts)
    → length (delivered_in ts) < uint_mod
    → (g : Globals) × (packets : List Packet) × GlobalsOf
        (ping_loop (ping_mac lib e) maxcount packetwait deadline 0 ts s)
        g
      × Hears
          (echoes_heard e s.globals)
          (handed_run (ping_mac lib e) maxcount packetwait deadline 0 ts s)
          []
          packets
      × IsMacStatus g packets
ping_loop-IsMacStatus lib e maxcount packetwait deadline ts s none_yet no_dup captured room =
    let start : Counts s.globals s.globals [] = record {
      numrecvd = none_yet;
      dupfound = no_dup;
      finddup = refl;
    } in
    let c =
      ping_loop-Concluded (ping_mac lib e) (echoes_heard e s.globals) (ping_mac-Sends lib e)
        maxcount packetwait deadline 0 ts s [] captured (omega (arith, room)) start in
    (
      c.globals,
      c.replies,
      c.ended,
      c.hears,
      Counts-IsMacStatus s.globals c.globals c.replies c.stands,
    )
