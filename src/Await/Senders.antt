-- ===== src/Await/Senders.antt =====
-- `ping_recv` with `pingip_recv`, seen from outside: the senders of the replies that it was handed.
use arping.Prelude.{suc, ℕ, ◌+◌, ◌≤◌, ◌<◌, ap, refl, Bool, List, arith, length}
use arping.Mac.{EthAddr}
use arping.Host.Order.{Endian, Packet}
use arping.Host.Clock.{Reading}
use arping.State.{Output, Globals}
use arping.Recv.Ip.{pingip_recv}
use arping.Recv.Ip.Senders.{Refines, Remembers-same, Heard, heard, ignored, pingip_recv-Heard}
use arping.Send.Counts.{sent}
use arping.Await.{Round, ping_recv}
use arping.Await.Hears.{Listener, AllCaptured, all_delivered}
use arping.Await.Handed.{handed_recv}
use arping.Await.Listened.{Listened}
use arping.Await.Rounds.{whole_wait-Listened}

-- Only what is printed, and whether the program ends, has changed.
pub Refines-print :
    (start g : Globals) (ms : List EthAddr) (out : List Output) (die : Bool)
    → Refines start g ms
    → Refines start (record g { out = out; time_to_die = die }) ms
Refines-print start g ms out die r =
    let a = r.asks in
    record {
      asks = record {
        untagged = a.untagged;
        dstip = a.dstip;
        dstmac = a.dstmac;
        same = a.same;
        finddup = a.finddup;
      };
      remembers =
          Remembers-same g (record g { out = out; time_to_die = die }) ms refl refl refl
            r.remembers;
    }

pub sent-Refines :
    (start g : Globals) (ms : List EthAddr) (die : Bool) (after : Reading) (out : _)
    → Refines start g ms
    → Refines start (sent die after g out) ms
sent-Refines start g ms die after out r =
    let a = r.asks in
    record {
      asks = record {
        untagged = a.untagged;
        dstip = a.dstip;
        dstmac = a.dstmac;
        same = a.same;
        finddup = a.finddup;
      };
      remembers = Remembers-same g (sent die after g out) ms refl refl refl r.remembers;
    }

-- Each packet adds one sender at most.
pub Heard-length :
    (e : Endian) (start : Globals) (packet : Packet) (ms ms' : List EthAddr)
    → Heard e start packet ms ms'
    → length ms' ≤ suc (length ms)
Heard-length e start packet ms ms' (heard r at q) = omega (arith, ap length q)
Heard-length e start packet ms ms' (ignored r q) = omega (arith, ap length q)

-- Who listens to `pingip_recv` hears the senders of the replies that the globals ask for at the start.
abbrev pub senders_heard :
    (e : Endian) (start : Globals) → Listener EthAddr (λ r h p g. pingip_recv e r h p g)
senders_heard e start = record {
  Heard = Heard e start;
  Stands = Refines start;
  hears_one = λ r h packet g ms c room ref. pingip_recv-Heard e r h packet start g ms c room ref;
  prints = Refines-print start;
  sends = sent-Refines start;
  grows = Heard-length e start;
}

-- `ping_recv` with `pingip_recv`, from globals that stand for the senders heard so far and ask for
-- replies without a VLAN tag, on packets of which 54 bytes or more were captured, fewer than 2^32 with
-- those before: it returns, goes on or ends the program, and reads no byte that was not captured. It
-- hands over the packets of every round that is made, each once and in order. The globals then stand
-- for the senders heard before and those of the replies among these packets, and ask for the same as
-- before.
pub ping_recv-Listened :
    (e : Endian) (start : Globals) (packetwait : ℕ) (clock : Reading) (has_fd : Bool)
    (rds : List Round) (g : Globals) (ms : List EthAddr)
    → AllCaptured (all_delivered rds)
    → length ms + length (all_delivered rds) < 4294967296
    → Refines start g ms
    → Listened
        (senders_heard e start)
        (handed_recv (λ r h p g. pingip_recv e r h p g) packetwait clock has_fd rds g)
        ms
        (ping_recv (λ r h p g. pingip_recv e r h p g) packetwait clock has_fd rds g)
ping_recv-Listened e start = whole_wait-Listened (senders_heard e start)
