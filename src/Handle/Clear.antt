-- ===== src/Handle/Clear.antt =====
-- `libnet_clear_packet` and `libnet_destroy` free what a handle owns: each piece once, and nothing else.
use arping.Prelude.{
  ℕ, zero, suc, ◌≤◌, ◌≡◌, ◌∙◌, ap, sym, refl, ◌⊎◌, inl, inr, false, Option, some, List, [], ◌∷◌,
  ◌++◌, ◌==◌, if◌then◌else◌, arith, length, Bool-cases,
}
use arping.Handle.Store.{Pblock, Cell, pblock, Memory, erase, free, load_pblock}
use arping.Handle.{clear_blocks}

-- A protocol block of a list: its address and that of its buffer, which may be 0.
pub record Node : Type 0 where
  pub addr : ℕ
  pub buf : ℕ

-- Cells that are freed, in this order.
abbrev pub erase_all : List ℕ → Memory → Memory
erase_all [] m = m
erase_all (p ∷ ps) m = erase_all ps (erase p m)

-- The address is none of these.
abbrev pub Apart : ℕ → List ℕ → Type 0
Apart p [] = Unit
Apart p (q ∷ qs) = ((p == q) ≡ false) × Apart p qs

abbrev pub Distinct : List ℕ → Type 0
Distinct [] = Unit
Distinct (p ∷ ps) = Apart p ps × Distinct ps

-- A pointer, and what it owns.
abbrev pub owned : ℕ → List ℕ
owned p = if p == 0 then [] else p ∷ []

abbrev pub Allocated : ℕ → (ℕ → Option Cell) → Type 0
Allocated p f = (p ≡ 0) ⊎ ((c : Cell) × (f p ≡ some c))

abbrev pub footprint : List Node → List ℕ
footprint [] = []
footprint (n ∷ ns) = owned n.buf ++ n.addr ∷ footprint ns

-- The list that starts at `p`.
abbrev pub Chain : (ℕ → Option Cell) → ℕ → List Node → Type 0
Chain f p [] = p ≡ 0
Chain f p (n ∷ ns) =
    (p ≡ n.addr)
    × ((p == 0) ≡ false)
    × Allocated n.buf f
    × ((q : ℕ) × (f p ≡ some (pblock (record { buf = n.buf; next = q }))) × Chain f q ns)

pub Apart-append : (p : ℕ) (ps qs : List ℕ) → Apart p (ps ++ qs) → Apart p ps × Apart p qs
Apart-append p [] qs h = (tt, h)
Apart-append p (x ∷ ps) qs (h, t) = let (a, b) = Apart-append p ps qs t in ((h, a), b)

cell-erase : (m : Memory) (p q : ℕ) → (p == q) ≡ false → (erase p m).cell q ≡ m.cell q
cell-erase m p q h = rw h refl

Allocated-erase :
    (m : Memory) (p q : ℕ) → Apart p (owned q) → Allocated q m.cell → Allocated q (erase p m).cell
Allocated-erase m p q h (inl z) = inl z
Allocated-erase m p q h (inr (c, e)) = elim (Bool-cases (q == 0)) [
  | inl z ↦ inl (ground arith)
  | inr nz ↦ inr (c, cell-erase m p q (ground arith) ∙ e)
]

pub Chain-erase :
    (m : Memory) (a p : ℕ) (ns : List Node)
    → Apart a (footprint ns)
    → Chain m.cell p ns
    → Chain (erase a m).cell p ns
Chain-erase m a p [] h c = c
Chain-erase m a p (n ∷ ns) h (same, nz, buf, (q, here, rest)) =
    let (h_buf, h_rest) = Apart-append a (owned n.buf) (n.addr ∷ footprint ns) h in
    (
      same,
      nz,
      Allocated-erase m a n.buf h_buf buf,
      (q, cell-erase m a p (rw same h_rest.0) ∙ here, Chain-erase m a q ns h_rest.1 rest),
    )

pub free-Allocated :
    (m : Memory) (p : ℕ)
    → Allocated p m.cell
    → (if p == 0 then some m else free p m) ≡ some (erase_all (owned p) m)
free-Allocated m p (inl z) = rw z refl
free-Allocated m p (inr (c, e)) = ground arith

pub erase_all-append :
    (ps qs : List ℕ) (m : Memory) → erase_all (ps ++ qs) m ≡ erase_all qs (erase_all ps m)
erase_all-append [] qs m = refl
erase_all-append (p ∷ ps) qs m = erase_all-append ps qs (erase p m)

-- What is left of the heap when the buffer of the first block is freed.
after_buf :
    (m : Memory) (a p q : ℕ) (ns : List Node)
    → Distinct (owned a ++ p ∷ footprint ns)
    → Chain m.cell q ns
    → ((erase_all (owned a) m).cell p ≡ m.cell p)
      × Chain (erase_all (owned a) m).cell q ns
      × Apart p (footprint ns)
      × Distinct (footprint ns)
after_buf m a p q ns d c = elim (Bool-cases (a == 0)) [
  | inl z ↦ let d' : Distinct (p ∷ footprint ns) = ground arith in rw z (refl, c, d'.0, d'.1)
  | inr nz ↦
      let d' : Apart a (p ∷ footprint ns) × Distinct (p ∷ footprint ns) = ground arith in
      rw nz (cell-erase m a p d'.0.0, Chain-erase m a q ns d'.0.1 c, d'.1.0, d'.1.1)
]

pub load_pblock_lem :
    (m : Memory) (p : ℕ) (b : Pblock) → m.cell p ≡ some (pblock b) → load_pblock p m ≡ some b
load_pblock_lem m p b e = ground arith

pub free_lem : (m : Memory) (p : ℕ) (c : Cell) → m.cell p ≡ some c → free p m ≡ some (erase p m)
free_lem m p c e = ground arith

-- One round of the loop.
clear_blocks-block :
    (fuel : ℕ) (m : Memory) (p : ℕ) (b : Pblock)
    → (p == 0) ≡ false
    → m.cell p ≡ some (pblock b)
    → Allocated b.buf m.cell
    → (erase_all (owned b.buf) m).cell p ≡ m.cell p
    → clear_blocks (suc fuel) p m ≡ clear_blocks fuel b.next (erase p (erase_all (owned b.buf) m))
unfolding clear_blocks
clear_blocks-block fuel m p b nz here buf same =
    rw
      (
        nz,
        load_pblock_lem m p b here,
        free-Allocated m b.buf buf,
        free_lem (erase_all (owned b.buf) m) p (pblock b) (same ∙ here),
      )
      refl

-- The list, freed.
pub clear_blocks-Chain :
    (fuel : ℕ) (m : Memory) (p : ℕ) (ns : List Node)
    → Chain m.cell p ns
    → Distinct (footprint ns)
    → length ns ≤ fuel
    → clear_blocks fuel p m ≡ some (erase_all (footprint ns) m)
unfolding clear_blocks
clear_blocks-Chain zero m p [] c d h = rw c refl
clear_blocks-Chain (suc fuel) m p [] c d h = rw c refl
clear_blocks-Chain zero m p (n ∷ ns) c d h = elim h [ ]
clear_blocks-Chain (suc fuel) m p (n ∷ ns) (same, nz, buf, (q, here, rest)) d h =
    let mb : Memory = erase_all (owned n.buf) m in
    let (kept, chain, apart, distinct) = after_buf m n.buf n.addr q ns d rest in
    clear_blocks-block fuel m p (record { buf = n.buf; next = q }) nz here buf (rw same kept)
    ∙ clear_blocks-Chain fuel (erase p mb) q ns (Chain-erase mb p q ns (rw same apart) chain)
        distinct (omega arith)
    ∙ ap some (
        ap (λ a. erase_all (footprint ns) (erase a mb)) same
        ∙ sym (erase_all-append (owned n.buf) (n.addr ∷ footprint ns) m))
