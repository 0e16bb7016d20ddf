-- ===== src/Recv/Ip/Outcome.antt =====
-- Which packets `pingip_recv` takes for a reply, when every byte that it reads was captured.
use Prim.Native.String.{String}
use arping.Prelude.{
  ℕ, ◌+◌, ◌≡◌, refl, Bool, true, false, Option, some, List, not, ◌&&◌, ◌||◌, ◌==◌, if◌then◌else◌,
  arith,
}
use arping.Mac.{EthAddr, eth_eq}
use arping.Host.Order.{Endian, Packet, htons, word16, word32, load8}
use arping.Host.Clock.{Timespec}
use arping.State.{Output, Globals, note}
use arping.Recv.{PktHdr, load_eth}
use arping.Recv.Accept.{Report, accept_ip}
use arping.Recv.Ip.{check_ip, check_sender, check_fields}

-- The reply is recorded; the output before it may have grown.
abbrev pub Taken : Report → Globals → Option Globals → Type 0
Taken p g r =
    (o : List Output) × (r ≡ some (accept_ip p.len p.mac p.ip p.arrival (record g { out = o })))

-- Nothing but the output has changed.
abbrev pub Ignored : Globals → Option Globals → Type 0
Ignored g r = (o : List Output) × (r ≡ some (record g { out = o }))

abbrev pub Outcome : Report → Globals → Bool → Option Globals → Type 0
Outcome p g true r = Taken p g r
Outcome p g false r = Ignored g r

module _ (p : Report) (g : Globals) where
  -- What was printed before makes no difference.
  Outcome-note :
      (level : ℕ) (text : String) (c : Bool) (r : Option Globals)
      → Outcome p (note g level text) c r
      → Outcome p g c r
  Outcome-note level text true r h = h
  Outcome-note level text false r h = h

  -- A test that drops the packet when it fails.
  Outcome-gate :
      (b c : Bool) (r : Option Globals)
      → Outcome p g c r
      → Outcome p g (b && c) (if not b then some g else r)
  Outcome-gate true c r h = h
  Outcome-gate false c r h = (g.out, refl)

  -- The same test, only made if `must`.
  Outcome-optional :
      (must b c : Bool) (r : Option Globals)
      → Outcome p g c r
      → Outcome p g ((not must || b) && c) (if must then (if not b then some g else r) else r)
  Outcome-optional true b c r h = Outcome-gate b c r h
  Outcome-optional false b c r h = h

-- The bytes that the handler reads of an ARP header at `harp`, whose hardware addresses have `hln` bytes.
pub record Frame (packet : Packet) (harp hln : ℕ) : Type 0 where
  pub hrd0 : ℕ
  pub hrd1 : ℕ
  pub pro0 : ℕ
  pub pro1 : ℕ
  pub op0 : ℕ
  pub op1 : ℕ
  pub at_hrd0 : load8 packet harp ≡ some hrd0
  pub at_hrd1 : load8 packet (harp + 1) ≡ some hrd1
  pub at_pro0 : load8 packet (harp + 2) ≡ some pro0
  pub at_pro1 : load8 packet (harp + 2 + 1) ≡ some pro1
  pub at_op0 : load8 packet (harp + 6) ≡ some op0
  pub at_op1 : load8 packet (harp + 6 + 1) ≡ some op1
  pub sender : EthAddr
  pub at_sender : load_eth packet (harp + 8) ≡ some sender
  pub ip0 : ℕ
  pub ip1 : ℕ
  pub ip2 : ℕ
  pub ip3 : ℕ
  pub at_ip0 : load8 packet (harp + hln + 8) ≡ some ip0
  pub at_ip1 : load8 packet (harp + hln + 8 + 1) ≡ some ip1
  pub at_ip2 : load8 packet (harp + hln + 8 + 2) ≡ some ip2
  pub at_ip3 : load8 packet (harp + hln + 8 + 3) ≡ some ip3
  pub mac : EthAddr
  pub at_mac : load_eth packet 28 ≡ some mac

module _ (e : Endian) (h : PktHdr) (packet : Packet) (arrival : Timespec) (harp hln : ℕ)
    (f : Frame packet harp hln) (len : load8 packet (harp + 4) ≡ some hln) where
  abbrev pub report : Report
  report = record {
    len = h.len;
    mac = f.mac;
    ip = word32 e f.ip0 f.ip1 f.ip2 f.ip3;
    arrival = arrival;
  }

  -- The sender's address is the one that was asked for.
  abbrev pub right_ip : Globals → Bool
  right_ip g = g.dstip == report.ip

  check_ip_lem :
      (g : Globals)
      → check_ip e h packet arrival harp g ≡ (
          if not (right_ip g)
          then some g
          else some (
              accept_ip h.len f.mac report.ip arrival
                (note g 3 "arping: ... for the right IPv4 address!")))
  unfolding check_ip
  check_ip_lem g = ground (arith, f.at_mac, f.at_ip0, f.at_ip1, f.at_ip2, f.at_ip3)

  check_ip-Outcome :
      (g : Globals) → Outcome report g (right_ip g && true) (check_ip e h packet arrival harp g)
  check_ip-Outcome g = rw (check_ip_lem g) (Outcome-gate report g (right_ip g) true _ (_, refl))

  -- With `addr_must_be_same` the sender is the target.
  abbrev pub right_sender : Globals → Bool
  right_sender g = not g.addr_must_be_same || eth_eq f.sender g.dstmac

  check_sender-Outcome :
      (g : Globals)
      → Outcome report g
          (right_sender g && (right_ip g && true))
          (check_sender e h packet arrival harp g)
  unfolding check_sender
  check_sender-Outcome g = rw f.at_sender (
      Outcome-optional report g g.addr_must_be_same (eth_eq f.sender g.dstmac) _ _
        (Outcome-note report g 3 "arping: ... sent by acceptable host" _ _ (check_ip-Outcome _)))

  abbrev pub right_op : Bool
  right_op = htons e (word16 e f.op0 f.op1) == 2

  abbrev pub right_pro : Bool
  right_pro = htons e (word16 e f.pro0 f.pro1) == 0x800

  abbrev pub right_hrd : Bool
  right_hrd = htons e (word16 e f.hrd0 f.hrd1) == 1

  pub check_fields-Outcome :
      (g : Globals)
      → Outcome report g
          (right_op && (right_pro && (right_hrd && (right_sender g && (right_ip g && true)))))
          (check_fields e h packet arrival harp g)
  unfolding check_fields
  check_fields-Outcome g =
      let g1 = note g 3 "arping: ... packet is ARP reply" in
      let g2 = note g1 3 "arping: ... from IPv4 address" in
      rw (f.at_op0, f.at_op1, f.at_pro0, f.at_pro1, f.at_hrd0, f.at_hrd1)
        (Outcome-gate report g right_op _ _ (
          Outcome-note report g 3 "arping: ... packet is ARP reply" _ _ (
            Outcome-gate report g1 right_pro _ _ (
              Outcome-note report g1 3 "arping: ... from IPv4 address" _ _ (
                Outcome-gate report g2 right_hrd _ _ (
                  Outcome-note report g2 3 "arping: ... to Ethernet address" _ _
                    (check_sender-Outcome _)))))))
