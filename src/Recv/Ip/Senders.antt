-- ===== src/Recv/Ip/Senders.antt =====
-- What `pcap_dispatch` with `pingip_recv` does, seen from outside: it keeps a list of the senders of
-- the replies, of which the globals remember the number, the last one, and whether two differ.
use arping.Prelude.{
  ◌≤◌, ◌<◌, ◌≡◌, ◌∙◌, ap, sym, refl, ◌⊎◌, inl, inr, false, some, List, [], ◌∷◌, ◌==◌, arith, length,
  All, Bool-cases, get_elem?_total,
}
use arping.Mac.{EthAddr}
use arping.Host.Order.{Endian, Packet}
use arping.Host.Clock.{Reading}
use arping.State.{Globals, clock_time, timed}
use arping.Stats.{update_stats}
use arping.Recv.{PktHdr, load_eth}
use arping.Recv.Accept.{Report, accept_ip, remember, count_reply}
use arping.Recv.Accept.Duplicates.{Remembers, accept_ip-Remembers}
use arping.Recv.Ip.{tagged, pingip_recv}
use arping.Recv.Ip.Fields.{IsReply, Frame_of, passes, passes-IsReply, IsReply-passes}
use arping.Recv.Ip.Reply.{pingip_recv-IsReply, pingip_recv-other}

-- A packet whose first 54 bytes, at least, were captured.
pub record IsCaptured (h : PktHdr) (packet : Packet) : Type 0 where
  pub whole : h.caplen ≡ length packet
  pub long : 54 ≤ length packet
  pub bytes : All (λ b. b < 256) packet

-- The globals ask for the same replies as those at the start, without a VLAN tag.
pub record Asks (start g : Globals) : Type 0 where
  pub untagged : tagged g.vlan_tag ≡ false
  pub dstip : g.dstip ≡ start.dstip
  pub dstmac : g.dstmac ≡ start.dstmac
  pub same : g.addr_must_be_same ≡ start.addr_must_be_same
  pub finddup : g.finddup ≡ start.finddup

-- The globals stand for a list of senders, the newest first.
pub record Refines (start g : Globals) (senders : List EthAddr) : Type 0 where
  pub asks : Asks start g
  pub remembers : Remembers g senders

IsReply-cases :
    (e : Endian) (h : PktHdr) (g : Globals) (packet : Packet)
    → IsCaptured h packet
    → IsReply e g packet ⊎ (¬ IsReply e g packet)
IsReply-cases e h g packet c =
    let f =
      Frame_of packet 36 6 (omega (arith, c.long)) (omega (arith, c.long))
        (omega (arith, c.long)) in
    let (a, at_a) = get_elem?_total packet 40 (omega (arith, c.long)) in
    let (b, at_b) = get_elem?_total packet 41 (omega (arith, c.long)) in
    elim (Bool-cases (a == 6)) [
      | inr other ↦ inr (λ r. ground (arith, r.hln))
      | inl six ↦ elim (Bool-cases (b == 4)) [
        | inr other ↦ inr (λ r. ground (arith, r.pln))
        | inl four ↦ elim (Bool-cases (passes e g f)) [
          | inl holds ↦
              inl (passes-IsReply e g packet f c.bytes (ground arith) (ground arith) holds)
          | inr fails ↦ inr (λ r. let holds = IsReply-passes e g packet f c.bytes r in cc)
        ]
      ]
    ]

IsReply-Asks :
    (e : Endian) (start g : Globals) (packet : Packet)
    → Asks start g
    → IsReply e g packet
    → IsReply e start packet
IsReply-Asks e start g packet a r = record {
  hrd = r.hrd;
  pro = r.pro;
  hln = r.hln;
  pln = r.pln;
  op = r.op;
  sender = λ must. r.sender (a.same ∙ must) ∙ ap some a.dstmac;
  ip = r.ip ∙ ap some a.dstip;
}

Asks-IsReply :
    (e : Endian) (start g : Globals) (packet : Packet)
    → Asks start g
    → IsReply e start packet
    → IsReply e g packet
Asks-IsReply e start g packet a r = record {
  hrd = r.hrd;
  pro = r.pro;
  hln = r.hln;
  pln = r.pln;
  op = r.op;
  sender = λ must. r.sender (sym a.same ∙ must) ∙ ap some (sym a.dstmac);
  ip = r.ip ∙ ap some (sym a.dstip);
}

pub Remembers-same :
    (g g' : Globals) (ms : List EthAddr)
    → g'.numrecvd ≡ g.numrecvd
    → g'.lastreplymac ≡ g.lastreplymac
    → g'.dupfound ≡ g.dupfound
    → Remembers g ms
    → Remembers g' ms
Remembers-same g g' [] n l d r = (n ∙ r.0, d ∙ r.1)
Remembers-same g g' (m ∷ ms) n l d r = (n ∙ r.0, l ∙ r.1, d ∙ r.2)

-- One packet.
pub data Heard (e : Endian) (start : Globals) (packet : Packet)
    : List EthAddr → List EthAddr → Type 0 where
  heard :
      {m : EthAddr} {ms ms' : List EthAddr}
      → IsReply e start packet
      → load_eth packet 28 ≡ some m
      → ms' ≡ m ∷ ms
      → Heard e start packet ms ms'
  ignored :
      {ms ms' : List EthAddr} → ¬ IsReply e start packet → ms' ≡ ms → Heard e start packet ms ms'

accept_ip-Asks :
    (start g : Globals) (p : Report)
    → Asks start g
    → Asks start (accept_ip p.len p.mac p.ip p.arrival g)
unfolding accept_ip remember count_reply update_stats
accept_ip-Asks start g p a = record {
  untagged = a.untagged;
  dstip = a.dstip;
  dstmac = a.dstmac;
  same = a.same;
  finddup = a.finddup;
}

-- Whether it is a reply or not, the handler returns.
pub pingip_recv-Heard :
    (e : Endian) (r : Reading) (h : PktHdr) (packet : Packet) (start g : Globals)
    (ms : List EthAddr)
    → IsCaptured h packet
    → length ms < 4294967295
    → Refines start g ms
    → (g' : Globals) × (ms' : List EthAddr) × (pingip_recv e r h packet g ≡ some g')
      × Heard e start packet ms ms'
      × Refines start g' ms'
pingip_recv-Heard e r h packet start g ms c room ref =
    let a = ref.asks in
    elim (IsReply-cases e h g packet c) [
      | inl reply ↦
          let (mac, at, (o, taken)) =
            pingip_recv-IsReply e r h packet g a.untagged c.whole c.long c.bytes reply in
          let p : Report = record {
            len = h.len;
            mac = mac;
            ip = g.dstip;
            arrival = clock_time r;
          } in
          let g1 : Globals = record (timed r g) { out = o } in
          let a1 : Asks start g1 = record {
            untagged = a.untagged;
            dstip = a.dstip;
            dstmac = a.dstmac;
            same = a.same;
            finddup = a.finddup;
          } in
          let remembers : Remembers g1 ms = Remembers-same g g1 ms refl refl refl ref.remembers in
          (
            accept_ip p.len p.mac p.ip p.arrival g1,
            mac ∷ ms,
            taken,
            heard (IsReply-Asks e start g packet a reply) at refl,
            record {
              asks = accept_ip-Asks start g1 p a1;
              remembers = accept_ip-Remembers g1 p ms room remembers;
            },
          )
      | inr other ↦
          let (o, same) =
            pingip_recv-other e r h packet g a.untagged c.whole c.long c.bytes other in
          let g' : Globals = record (timed r g) { out = o } in
          (
            g',
            ms,
            same,
            ignored (λ reply. other (Asks-IsReply e start g packet a reply)) refl,
            record {
              asks = record {
                untagged = a.untagged;
                dstip = a.dstip;
                dstmac = a.dstmac;
                same = a.same;
                finddup = a.finddup;
              };
              remembers = Remembers-same g g' ms refl refl refl ref.remembers;
            },
          )
    ]
