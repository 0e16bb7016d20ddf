-- ===== src/Recv/Ip/Fields.antt =====
-- The fields of a captured packet, and the description of the replies that `pingip_recv` counts by its
-- bytes.
use arping.Prelude.{
  ℕ, ◌+◌, ◌*◌, ◌≤◌, ◌<◌, ◌≡◌, refl, Bool, true, some, not, ◌&&◌, ◌||◌, ◌==◌, arith, length, All,
  get_elem?_total, All-get_elem?,
}
use arping.Mac.{EthAddr, eth_eq, eth_eq_iff}
use arping.Host.Order.{Endian, Packet, htons, word16, word32, htons-word16, load8, load32}
use arping.State.{Globals}
use arping.Recv.{load_eth}
use arping.Recv.Ip.Outcome.{Frame}

-- An ARP reply over Ethernet and IPv4, behind 22 bytes and an Ethernet header, that gives the
-- address asked for, and comes from the target where that is asked for too.
pub record IsReply (e : Endian) (g : Globals) (packet : Packet) : Type 0 where
  pub hrd : (load8 packet 36 ≡ some 0) × (load8 packet 37 ≡ some 1)
  pub pro : (load8 packet 38 ≡ some 8) × (load8 packet 39 ≡ some 0)
  pub hln : load8 packet 40 ≡ some 6
  pub pln : load8 packet 41 ≡ some 4
  pub op : (load8 packet 42 ≡ some 0) × (load8 packet 43 ≡ some 2)
  pub sender : g.addr_must_be_same ≡ true → load_eth packet 44 ≡ some g.dstmac
  pub ip : load32 e packet 50 ≡ some g.dstip

-- An ARP reply over Ethernet and IPv4 at `harp`, with hardware addresses of `hln` bytes: the same, but
-- for the lengths.
pub record IsArp (e : Endian) (g : Globals) (packet : Packet) (harp hln : ℕ) : Type 0 where
  pub hrd : (load8 packet harp ≡ some 0) × (load8 packet (harp + 1) ≡ some 1)
  pub pro : (load8 packet (harp + 2) ≡ some 8) × (load8 packet (harp + 2 + 1) ≡ some 0)
  pub op : (load8 packet (harp + 6) ≡ some 0) × (load8 packet (harp + 6 + 1) ≡ some 2)
  pub sender : g.addr_must_be_same ≡ true → load_eth packet (harp + 8) ≡ some g.dstmac
  pub ip : load32 e packet (harp + hln + 8) ≡ some g.dstip

pub load_eth_total :
    (packet : Packet) (i : ℕ) → i + 5 < length packet → (m : EthAddr) × (load_eth packet i ≡ some m)
load_eth_total packet i h =
    let (a, pa) = get_elem?_total packet i (omega arith) in
    let (b, pb) = get_elem?_total packet (i + 1) (omega arith) in
    let (c, pc) = get_elem?_total packet (i + 2) (omega arith) in
    let (d, pd) = get_elem?_total packet (i + 3) (omega arith) in
    let (e, pe) = get_elem?_total packet (i + 4) (omega arith) in
    let (f, pf) = get_elem?_total packet (i + 5) h in
    (record { m0 = a; m1 = b; m2 = c; m3 = d; m4 = e; m5 = f }, rw (pa, pb, pc, pd, pe, pf) refl)

pub Frame_of :
    (packet : Packet) (harp hln : ℕ)
    → 34 ≤ length packet
    → harp + 14 ≤ length packet
    → harp + hln + 12 ≤ length packet
    → Frame packet harp hln
Frame_of packet harp hln source header room =
    let (hrd0, p36) = get_elem?_total packet harp (omega arith) in
    let (hrd1, p37) = get_elem?_total packet (harp + 1) (omega arith) in
    let (pro0, p38) = get_elem?_total packet (harp + 2) (omega arith) in
    let (pro1, p39) = get_elem?_total packet (harp + 2 + 1) (omega arith) in
    let (op0, p42) = get_elem?_total packet (harp + 6) (omega arith) in
    let (op1, p43) = get_elem?_total packet (harp + 6 + 1) (omega arith) in
    let (sender, p44) = load_eth_total packet (harp + 8) (omega arith) in
    let (ip0, p50) = get_elem?_total packet (harp + hln + 8) (omega arith) in
    let (ip1, p51) = get_elem?_total packet (harp + hln + 8 + 1) (omega arith) in
    let (ip2, p52) = get_elem?_total packet (harp + hln + 8 + 2) (omega arith) in
    let (ip3, p53) = get_elem?_total packet (harp + hln + 8 + 3) (omega arith) in
    let (mac, p28) = load_eth_total packet 28 (omega arith) in
    record {
      hrd0 = hrd0;
      hrd1 = hrd1;
      pro0 = pro0;
      pro1 = pro1;
      op0 = op0;
      op1 = op1;
      at_hrd0 = p36;
      at_hrd1 = p37;
      at_pro0 = p38;
      at_pro1 = p39;
      at_op0 = p42;
      at_op1 = p43;
      sender = sender;
      at_sender = p44;
      ip0 = ip0;
      ip1 = ip1;
      ip2 = ip2;
      ip3 = ip3;
      at_ip0 = p50;
      at_ip1 = p51;
      at_ip2 = p52;
      at_ip3 = p53;
      mac = mac;
      at_mac = p28;
    }

-- The tests of the code, on a frame's fields.
abbrev pub passes :
    (e : Endian) (g : Globals) {packet : Packet} {harp hln : ℕ} → Frame packet harp hln → Bool
passes e g f =
    (htons e (word16 e f.op0 f.op1) == 2)
    && ((htons e (word16 e f.pro0 f.pro1) == 0x800)
        && ((htons e (word16 e f.hrd0 f.hrd1) == 1)
            && ((not g.addr_must_be_same || eth_eq f.sender g.dstmac)
                && ((g.dstip == word32 e f.ip0 f.ip1 f.ip2 f.ip3) && true))))

module _ (e : Endian) (g : Globals) (packet : Packet) (harp hln : ℕ) (f : Frame packet harp hln)
    (bytes : All (λ b. b < 256) packet) where
  -- A loaded byte is below 256.
  below : (i : ℕ) {b : ℕ} → load8 packet i ≡ some b → b < 256
  below i q = All-get_elem? (λ b. b < 256) packet i bytes q

  field_op : htons e (word16 e f.op0 f.op1) ≡ 256 * f.op0 + f.op1
  field_op = htons-word16 e f.op0 f.op1 (below _ f.at_op0) (below _ f.at_op1)

  field_pro : htons e (word16 e f.pro0 f.pro1) ≡ 256 * f.pro0 + f.pro1
  field_pro = htons-word16 e f.pro0 f.pro1 (below _ f.at_pro0) (below _ f.at_pro1)

  field_hrd : htons e (word16 e f.hrd0 f.hrd1) ≡ 256 * f.hrd0 + f.hrd1
  field_hrd = htons-word16 e f.hrd0 f.hrd1 (below _ f.at_hrd0) (below _ f.at_hrd1)

  pub passes-IsArp : passes e g f ≡ true → IsArp e g packet harp hln
  passes-IsArp b = record {
    hrd = ground (arith, field_hrd, below _ f.at_hrd1, f.at_hrd0, f.at_hrd1);
    pro = ground (arith, field_pro, below _ f.at_pro1, f.at_pro0, f.at_pro1);
    op = ground (arith, field_op, below _ f.at_op1, f.at_op0, f.at_op1);
    sender = λ must. ground (arith, eth_eq_iff f.sender g.dstmac, f.at_sender);
    ip = ground (arith, f.at_ip0, f.at_ip1, f.at_ip2, f.at_ip3);
  }

  pub IsArp-passes : IsArp e g packet harp hln → passes e g f ≡ true
  IsArp-passes r = ground (
    arith,
    field_hrd,
    field_pro,
    field_op,
    eth_eq_iff f.sender g.dstmac,
    r.hrd,
    r.pro,
    r.op,
    r.ip,
    f.at_hrd0,
    f.at_hrd1,
    f.at_pro0,
    f.at_pro1,
    f.at_op0,
    f.at_op1,
    f.at_sender,
    f.at_ip0,
    f.at_ip1,
    f.at_ip2,
    f.at_ip3,
  )

module _ (e : Endian) (g : Globals) (packet : Packet) where
  IsReply-IsArp : IsReply e g packet → IsArp e g packet 36 6
  IsReply-IsArp r = record { hrd = r.hrd; pro = r.pro; op = r.op; sender = r.sender; ip = r.ip }

  pub passes-IsReply :
      (f : Frame packet 36 6)
      → All (λ b. b < 256) packet
      → load8 packet 40 ≡ some 6
      → load8 packet 41 ≡ some 4
      → passes e g f ≡ true
      → IsReply e g packet
  passes-IsReply f bytes six four b =
      let a = passes-IsArp e g packet 36 6 f bytes b in
      record {
        hrd = a.hrd;
        pro = a.pro;
        hln = six;
        pln = four;
        op = a.op;
        sender = a.sender;
        ip = a.ip;
      }

  pub IsReply-passes :
      (f : Frame packet 36 6) → All (λ b. b < 256) packet → IsReply e g packet → passes e g f ≡ true
  IsReply-passes f bytes r = IsArp-passes e g packet 36 6 f bytes (IsReply-IsArp r)
