-- ===== src/Handle/Destroy.antt =====
-- `libnet_destroy` on a handle: everything that it owns is freed.
use arping.Prelude.{
  ℕ, ◌≤◌, ◌≡◌, ◌∙◌, ap, sym, refl, inl, inr, Bool, false, Option, none, some, List, [], ◌∷◌, ◌++◌,
  ◌||◌, ◌==◌, if◌then◌else◌, arith, length, Bool-cases,
}
use arping.Handle.Store.{Context, Cell, context, Memory, write, erase, load_context, store_context}
use arping.Handle.{libnet_clear_packet, libnet_destroy}
use arping.Handle.Clear.{
  Node, erase_all, Apart, Distinct, owned, Allocated, footprint, Chain, Chain-erase,
  clear_blocks-Chain, free-Allocated, free_lem, Apart-append, erase_all-append,
}

-- The address is one of these.
abbrev pub holds : ℕ → List ℕ → Bool
holds q [] = false
holds q (p ∷ ps) = p == q || holds q ps

cell-erase_all :
    (ps : List ℕ) (m : Memory) (q : ℕ)
    → (erase_all ps m).cell q ≡ (if holds q ps then none else m.cell q)
cell-erase_all [] m q = refl
cell-erase_all (p ∷ ps) m q = cell-erase_all ps (erase p m) q ∙ ground arith

erase_all_same :
    (ps : List ℕ) (m : Memory)
    → ((erase_all ps m).fresh ≡ m.fresh) × ((erase_all ps m).closed ≡ m.closed)
erase_all_same [] m = (refl, refl)
erase_all_same (p ∷ ps) m = erase_all_same ps (erase p m)

Apart-holds : (q : ℕ) (ps : List ℕ) → Apart q ps → holds q ps ≡ false
Apart-holds q [] h = refl
Apart-holds q (p ∷ ps) (h, t) = ground (arith, Apart-holds q ps t)

-- The handle `l`, with the fields `c` and the blocks `ns`.
pub record IsHandle (m : Memory) (l : ℕ) (c : Context) (ns : List Node) : Type 0 where
  pub there : (l == 0) ≡ false
  pub at : m.cell l ≡ some (context c)
  pub device : Allocated c.device m.cell
  pub chain : Chain m.cell c.protocol_blocks ns
  pub apart : Distinct (l ∷ owned c.device ++ footprint ns)

-- What `libnet_destroy` leaves: the descriptor closed, and only what the handle owned freed.
pub record IsDestroyed (m m' : Memory) (l : ℕ) (c : Context) (ns : List Node) : Type 0 where
  pub closed : m'.closed ≡ c.fd ∷ m.closed
  pub fresh : m'.fresh ≡ m.fresh
  pub cells :
      (q : ℕ)
      → m'.cell q ≡ (if holds q (l ∷ owned c.device ++ footprint ns) then none else m.cell q)

load_context_lem :
    (m : Memory) (p : ℕ) (c : Context) → m.cell p ≡ some (context c) → load_context p m ≡ some c
load_context_lem m p c e = ground arith

pub store_context_lem :
    (m : Memory) (p : ℕ) (old c : Context)
    → m.cell p ≡ some (context old)
    → store_context p c m ≡ some (record m { cell = write p (some (context c)) m.cell })
store_context_lem m p old c e = ground arith

-- A cell apart from those freed is as it was.
cell_kept : (ps : List ℕ) (m : Memory) (q : ℕ) → Apart q ps → (erase_all ps m).cell q ≡ m.cell q
cell_kept ps m q h = rw (Apart-holds q ps h) at (cell-erase_all ps m q)

-- `libnet_clear_packet` on a handle whose device is freed or not.
libnet_clear_packet_lem :
    (fuel : ℕ) (m : Memory) (l : ℕ) (c : Context) (ns : List Node)
    → (l == 0) ≡ false
    → m.cell l ≡ some (context c)
    → Chain m.cell c.protocol_blocks ns
    → Distinct (footprint ns)
    → Apart l (footprint ns)
    → length ns ≤ fuel
    → libnet_clear_packet fuel l m
      ≡ some (
          let me = erase_all (footprint ns) m in
          record me {
            cell =
                write l (some (context (record c { protocol_blocks = 0; total_size = 0 }))) me.cell;
          })
unfolding libnet_clear_packet
libnet_clear_packet_lem fuel m l c ns nz at chain d apart room =
    let me : Memory = erase_all (footprint ns) m in
    let kept : me.cell l ≡ some (context c) = cell_kept (footprint ns) m l apart ∙ at in
    rw
      (
        nz,
        load_context_lem m l c at,
        clear_blocks-Chain fuel m c.protocol_blocks ns chain d room,
        load_context_lem me l c kept,
        store_context_lem me l c (record c { protocol_blocks = 0; total_size = 0 }) kept,
      )
      refl

Chain-owned :
    (a p : ℕ) (m : Memory) (ns : List Node)
    → Distinct (owned a ++ footprint ns)
    → Chain m.cell p ns
    → Chain (erase_all (owned a) m).cell p ns × Distinct (footprint ns)
Chain-owned a p m ns d c = elim (Bool-cases (a == 0)) [
  | inl z ↦ rw z (c, ground arith)
  | inr nz ↦
      let d' : Apart a (footprint ns) × Distinct (footprint ns) = ground arith in
      rw nz (Chain-erase m a p ns d'.0 c, d'.1)
]

Apart-owned :
    (l a : ℕ) (ns : List Node)
    → Apart l (owned a ++ footprint ns)
    → Apart l (owned a) × Apart l (footprint ns)
Apart-owned l a ns h = Apart-append l (owned a) (footprint ns) h

last_cell :
    (l q : ℕ) (ps : List ℕ) (f g : ℕ → Option Cell) (x : Option Cell)
    → g q ≡ (if holds q ps then none else f q)
    → write l none (write l x g) q ≡ (if holds q (l ∷ ps) then none else f q)
last_cell l q ps f g x e = elim (Bool-cases (l == q)) [ inl h ↦ rw h refl | inr h ↦ rw h e ]

-- `libnet_destroy` frees the handle, its device, and each of its blocks with its buffer, each of them
-- once, closes its descriptor, and leaves every other cell of the heap as it was.
pub libnet_destroy-IsDestroyed :
    (fuel : ℕ) (m : Memory) (l : ℕ) (c : Context) (ns : List Node)
    → IsHandle m l c ns
    → length ns ≤ fuel
    → (m' : Memory) × (libnet_destroy fuel l m ≡ some m') × IsDestroyed m m' l c ns
unfolding libnet_destroy
libnet_destroy-IsDestroyed fuel m l c ns h room =
    let mc : Memory = record m { closed = c.fd ∷ m.closed } in
    let md : Memory = erase_all (owned c.device) mc in
    let me : Memory = erase_all (footprint ns) md in
    let (l_dev, l_ns) = Apart-owned l c.device ns h.apart.0 in
    let (chain, distinct) = Chain-owned c.device c.protocol_blocks mc ns h.apart.1 h.chain in
    let at : md.cell l ≡ some (context c) = cell_kept (owned c.device) mc l l_dev ∙ h.at in
    let cleared : Context = record c { protocol_blocks = 0; total_size = 0 } in
    let mf : Memory = record me { cell = write l (some (context cleared)) me.cell } in
    let here : mf.cell l ≡ some (context cleared) = ground arith in
    (
      erase l mf,
      rw
          (
            h.there,
            load_context_lem m l c h.at,
            free-Allocated mc c.device h.device,
            libnet_clear_packet_lem fuel md l c ns h.there at chain distinct l_ns room,
            free_lem mf l (context cleared) here,
          )
          refl,
      record {
        closed = (erase_all_same (footprint ns) md).1 ∙ (erase_all_same (owned c.device) mc).1;
        fresh = (erase_all_same (footprint ns) md).0 ∙ (erase_all_same (owned c.device) mc).0;
        cells = λ q.
            last_cell l q (owned c.device ++ footprint ns) mc.cell me.cell (some (context cleared))
              (ap (λ x. x.cell q) (sym (erase_all-append (owned c.device) (footprint ns) mc))
                ∙ cell-erase_all (owned c.device ++ footprint ns) mc q);
      },
    )
