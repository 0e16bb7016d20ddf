-- ===== src/Run/Senders.antt =====
-- A whole run of `arping_main` that pings an IP address: which senders it hears, and its exit status.
use arping.Prelude.{ℕ, ◌<◌, ◌≡◌, refl, false, List, [], ℤ, arith, length}
use arping.Mac.{EthAddr}
use arping.Host.Order.{Endian}
use arping.State.{Globals, uint_mod}
use arping.Recv.Ip.{tagged}
use arping.Recv.Ip.Senders.{Asks, Refines}
use arping.Await.Hears.{Hears, AllCaptured}
use arping.Await.Senders.{senders_heard}
use arping.Send.{Libnet, Sender}
use arping.Send.Counts.{pingip_send_lem}
use arping.Run.{Turn, ping_ip, ping_loop}
use arping.Run.Turns.{Sends}
use arping.Run.Handed.{delivered_in, handed_run}
use arping.Run.Heard.{GlobalsOf, ping_loop-Concluded}
use arping.Run.Status.{IsStatus, Refines-IsStatus}

pub ping_ip-Sends : {L : Type 0} (lib : Libnet L) (e : Endian) → Sends (ping_ip lib e)
ping_ip-Sends lib e c t s = let (out, q) = pingip_send_lem lib t.before t.after s in (_, out, q)

-- A run that pings an IP address without a VLAN tag, from a state with no reply and no duplicate, over
-- packets of which 54 bytes or more were captured, fewer than 2^32 in all, reads no byte that was not
-- captured. At its end, or where it stands, `numrecvd` is the number of the replies, by what the globals
-- asked for at the start, among the packets of the rounds that it has made, each counted once. With -d
-- the exit status is then 1 exactly if two of these replies have different senders; without it the
-- status is 0 exactly if there was a reply.
pub ping_loop-IsStatus :
    {L : Type 0} (lib : Libnet L) (e : Endian) (maxcount packetwait : ℕ) (deadline : ℤ)
    (ts : List Turn) (s : Sender L)
    → tagged s.globals.vlan_tag ≡ false
    → s.globals.numrecvd ≡ 0
    → s.globals.dupfound ≡ false
    → AllCaptured (delivered_in ts)
    → length (delivered_in ts) < uint_mod
    → (g : Globals) × (senders : List EthAddr) × GlobalsOf
        (ping_loop (ping_ip lib e) maxcount packetwait deadline 0 ts s)
        g
      × Hears
          (senders_heard e s.globals)
          (handed_run (ping_ip lib e) maxcount packetwait deadline 0 ts s)
          []
          senders
      × IsStatus g senders
ping_loop-IsStatus lib e maxcount packetwait deadline ts s untagged none_yet no_dup captured room =
    let asks : Asks s.globals s.globals = record {
      untagged = untagged;
      dstip = refl;
      dstmac = refl;
      same = refl;
      finddup = refl;
    } in
    let start : Refines s.globals s.globals [] = record {
      asks = asks;
      remembers = (none_yet, no_dup);
    } in
    let c =
      ping_loop-Concluded (ping_ip lib e) (senders_heard e s.globals) (ping_ip-Sends lib e) maxcount
        packetwait deadline 0 ts s [] captured (omega (arith, room)) start in
    (
      c.globals,
      c.replies,
      c.ended,
      c.hears,
      Refines-IsStatus s.globals c.globals c.replies c.stands,
    )
