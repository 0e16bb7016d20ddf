-- ===== src/Await/Echoes.antt =====
-- `ping_recv` with `pingmac_recv`, seen from outside: the echo replies that it was handed.
use arping.Prelude.{
  suc, ◌≤◌, ◌<◌, ◌≡◌, ◌≢◌, ◌∙◌, ap, refl, inl, inr, false, some, List, ◌∷◌, arith, length, ◌==◌,
  Bool-cases, get_elem?_total,
}
use arping.Host.Order.{Endian, Packet, load8}
use arping.Host.Clock.{Reading}
use arping.State.{Globals, timed}
use arping.Stats.{update_stats}
use arping.Recv.{PktHdr}
use arping.Recv.Accept.{count_reply}
use arping.Recv.Echo.{icmp_echoreply, pingmac_recv, pingmac_recv-reply, pingmac_recv-other}
use arping.Recv.Ip.Senders.{IsCaptured}
use arping.Await.Hears.{Listener}

-- The replies counted, and no mark of a duplicate; whether -d was given is as at the start.
pub record Counts (start g : Globals) (packets : List Packet) : Type 0 where
  pub numrecvd : g.numrecvd ≡ length packets
  pub dupfound : g.dupfound ≡ false
  pub finddup : g.finddup ≡ start.finddup

-- One packet, the byte of the ICMP type behind an Ethernet and an IPv4 header.
pub data Echoed (packet : Packet) : List Packet → List Packet → Type 0 where
  echoed :
      {ps ps' : List Packet}
      → load8 packet 42 ≡ some icmp_echoreply
      → ps' ≡ packet ∷ ps
      → Echoed packet ps ps'
  other :
      {ps ps' : List Packet}
      → load8 packet 42 ≢ some icmp_echoreply
      → ps' ≡ ps
      → Echoed packet ps ps'

pub Echoed-length :
    (packet : Packet) (ps ps' : List Packet) → Echoed packet ps ps' → length ps' ≤ suc (length ps)
Echoed-length packet ps ps' (echoed t q) = omega (arith, ap length q)
Echoed-length packet ps ps' (other t q) = omega (arith, ap length q)

count_reply-Counts :
    (start g : Globals) (packet : Packet) (ps : List Packet) (sample : _)
    → length ps < 4294967295
    → Counts start g ps
    → Counts start (count_reply (update_stats g sample)) (packet ∷ ps)
unfolding count_reply update_stats
count_reply-Counts start g packet ps sample room c = record {
  numrecvd = omega (arith, c.numrecvd);
  dupfound = c.dupfound;
  finddup = c.finddup;
}

pub pingmac_recv-Echoed :
    (e : Endian) (r : Reading) (h : PktHdr) (packet : Packet) (start g : Globals) (ps : List Packet)
    → IsCaptured h packet
    → length ps < 4294967295
    → Counts start g ps
    → (g' : Globals) × (ps' : List Packet) × (pingmac_recv e r h packet g ≡ some g')
      × Echoed packet ps ps'
      × Counts start g' ps'
pingmac_recv-Echoed e r h packet start g ps c room counts =
    let (t, at) = get_elem?_total packet 42 (omega (arith, c.long)) in
    elim (Bool-cases (t == icmp_echoreply)) [
      | inl same ↦
          let reply : load8 packet 42 ≡ some icmp_echoreply = ground arith in
          let (o, q) = pingmac_recv-reply e r h packet g (omega (arith, c.long)) c.bytes reply in
          (
            _,
            packet ∷ ps,
            q,
            echoed reply refl,
            count_reply-Counts start (record (timed r g) { out = o }) packet ps _ room
                (record {
                  numrecvd = counts.numrecvd;
                  dupfound = counts.dupfound;
                  finddup = counts.finddup;
                }),
          )
      | inr differs ↦
          let none_one : load8 packet 42 ≢ some icmp_echoreply = λ q. ground arith in
          let (o, q) = pingmac_recv-other e r h packet g (omega (arith, c.long)) c.bytes none_one in
          (
            record (timed r g) { out = o },
            ps,
            q,
            other none_one refl,
            record {
              numrecvd = counts.numrecvd;
              dupfound = counts.dupfound;
              finddup = counts.finddup;
            },
          )
    ]

pub Counts-same :
    (start g g' : Globals) (ps : List Packet)
    → g'.numrecvd ≡ g.numrecvd
    → g'.dupfound ≡ g.dupfound
    → g'.finddup ≡ g.finddup
    → Counts start g ps
    → Counts start g' ps
Counts-same start g g' ps n d f c = record {
  numrecvd = n ∙ c.numrecvd;
  dupfound = d ∙ c.dupfound;
  finddup = f ∙ c.finddup;
}

-- Who listens to `pingmac_recv` hears the echo replies.
abbrev pub echoes_heard :
    (e : Endian) (start : Globals) → Listener Packet (λ r h p g. pingmac_recv e r h p g)
echoes_heard e start = record {
  Heard = Echoed;
  Stands = Counts start;
  hears_one =
      λ r h packet g ps c room counts. pingmac_recv-Echoed e r h packet start g ps c room counts;
  prints = λ g ps out die. Counts-same start g _ ps refl refl refl;
  sends = λ g ps die after out. Counts-same start g _ ps refl refl refl;
  grows = Echoed-length;
}
