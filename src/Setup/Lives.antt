-- ===== src/Setup/Lives.antt =====
-- `do_libnet_init` returns with a handle, or ends the program.
use arping.Prelude.{
  ℕ, ◌≤◌, ◌≡◌, ◌≢◌, refl, ◌⊎◌, inl, inr, Bool, true, false, Option, none, some, List, [], ◌==◌, pos,
  Text, codes, arith, length, Bool-cases,
}
use arping.State.{Globals, note}
use arping.Handle.Store.{Context, Memory}
use arping.Handle.{Answers, Opened}
use arping.Handle.Clear.{Node}
use arping.Handle.Destroy.{IsHandle, libnet_destroy-IsDestroyed}
use arping.Handle.New.{IsHeap, destroyed-IsHeap}
use arping.Handle.Init.{IsExhausted, Ended, libnet_init-Result}
use arping.Setup.{
  Net, Started, started, exit_1, libnet_link, drop_libnet, attempt, init_named, init_failed,
  do_libnet_init, strip_newline,
}

-- `libnet` is NULL, or a handle on the heap with at most `fuel` blocks.
pub record IsNet (fuel : ℕ) (n : Net) : Type 0 where
  pub heap : IsHeap n.memory
  pub handle :
      (n.libnet ≡ 0)
      ⊎ ((c : Context) × (ns : List Node) × IsHandle n.memory n.libnet c ns × (length ns ≤ fuel))

-- The function returned with a handle, or the program ended.
abbrev pub IsUp : ℕ → Started → Type 0
IsUp fuel (started n g) = (n.libnet ≢ 0) × IsNet fuel n
IsUp fuel (exit_1 out) = Unit

-- The same, but the handle may be NULL.
abbrev Returned : ℕ → Started → Type 0
Returned fuel (started n g) = IsNet fuel n
Returned fuel (exit_1 out) = Unit

drop_libnet-IsHeap :
    (fuel : ℕ) (n : Net)
    → IsNet fuel n
    → (m : Memory) × (drop_libnet fuel n ≡ some (record { libnet = 0; memory = m })) × IsHeap m
unfolding drop_libnet
drop_libnet-IsHeap fuel n h = elim h.handle [
  | inl null ↦ (n.memory, rw null refl, h.heap)
  | inr (c, ns, handle, room) ↦
      let (m, e, d) = libnet_destroy-IsDestroyed fuel n.memory n.libnet c ns handle room in
      (m, rw (handle.there, e) refl, destroyed-IsHeap n.memory m n.libnet c ns h.heap d)
]

opened-IsNet :
    (fuel : ℕ) (a : Answers) (t : ℕ) (m : Memory) (o : Opened)
    → IsHeap m
    → IsExhausted a m o ⊎ ((a.malloc_ok ≡ true) × Ended m a t (pos 0) o)
    → IsNet fuel (record { libnet = o.handle; memory = o.memory })
opened-IsNet fuel a t m o h (inl x) = record { heap = rw x.unchanged h; handle = inl x.null }
opened-IsNet fuel a t m o h (inr (ok, inl (never, f))) = record {
  heap = f.heap;
  handle = inl f.null;
}
opened-IsNet fuel a t m o h (inr (ok, inr (may, inl (failed, f)))) = record {
  heap = f.heap;
  handle = inl f.null;
}
opened-IsNet fuel a t m o h (inr (ok, inr (may, inr p))) = record {
  heap = p.new.heap;
  handle = inr (p.fields, [], p.new.handle, omega arith);
}

module _ (fuel : ℕ) (answers : Option Text → Answers) (unprivileged : Bool) where
  attempt-IsNet :
      (ifname : Option Text) (n : Net) (g : Globals)
      → IsNet fuel n
      → (o : Opened) × (attempt fuel answers unprivileged ifname n g
          ≡ some (o, note g 1 "arping: libnet_init("))
        × IsNet fuel (record { libnet = o.handle; memory = o.memory })
  unfolding attempt
  attempt-IsNet ifname n g h =
      let (m, dropped, heap) = drop_libnet-IsHeap fuel n h in
      let (o, e, result) = libnet_init-Result (answers ifname) libnet_link ifname m heap in
      (o, rw (dropped, e) refl, opened-IsNet fuel (answers ifname) libnet_link m o heap result)

  init_named-Returned :
      (ifname : Text) (recursive : Bool) (n : Net) (g : Globals)
      → IsNet fuel n
      → (r : Started) × (init_named fuel answers unprivileged ifname recursive n g ≡ some r)
        × Returned fuel r
        × (recursive ≡ false → IsUp fuel r)
  unfolding init_named init_failed
  init_named-Returned ifname recursive n g h =
      let (o, e, net) = attempt-IsNet (some ifname) n g h in
      let g1 = note g 1 "arping: libnet_init(" in
      let up : Net = record { libnet = o.handle; memory = o.memory } in
      elim (Bool-cases (o.handle == 0)) [
        | inr there ↦ (started up g1, rw (e, there) refl, net, λ r. (ground arith, net))
        | inl null ↦ elim (Bool-cases recursive) [
          | inl again ↦ (started up g1, rw (e, null, again) refl, net, λ r. absurd (ground arith))
          | inr last ↦
              let failed : Started =
                init_failed unprivileged (some ifname) (strip_newline o.err_buf) g1 in
              (failed, rw (e, null, last) refl, tt, λ r. tt)
        ]
      ]

  -- The second call for `lo`, when the first has failed.
  init_lo :
      (n : Net) (g : Globals) (o : Opened)
      → attempt fuel answers unprivileged none n g ≡ some (o, note g 1 "arping: libnet_init(")
      → (o.handle == 0) ≡ true
      → IsNet fuel (record { libnet = o.handle; memory = o.memory })
      → (recursive : Bool)
      → (r : Started) × (do_libnet_init fuel answers unprivileged none recursive n g ≡ some r)
        × IsUp fuel r
  unfolding do_libnet_init init_failed
  init_lo n g o e null net recursive =
      let (r, q, returned, _) = init_named-Returned (codes "lo") true up g1 net in
      finish r q returned
    where
      g1 : Globals
      g1 = note g 1 "arping: libnet_init("

      up : Net
      up = record { libnet = o.handle; memory = o.memory }

      finish :
          (r : Started)
          → init_named fuel answers unprivileged (codes "lo") true up g1 ≡ some r
          → Returned fuel r
          → (r' : Started) × (do_libnet_init fuel answers unprivileged none recursive n g ≡ some r')
            × IsUp fuel r'
      finish (exit_1 out) q h = (exit_1 out, rw (e, null, q) refl, tt)
      finish (started n2 g2) q h = elim (Bool-cases (n2.libnet == 0)) [
        | inr there ↦ (started n2 g2, rw (e, null, q, there) refl, (ground arith, h))
        | inl lost ↦
            let failed : Started = init_failed unprivileged none (strip_newline o.err_buf) g2 in
            (failed, rw (e, null, q, lost) refl, tt)
      ]

  -- `do_libnet_init(ifname, 0)`, called with `libnet` NULL or a handle on the heap: it faults nowhere,
  -- and returns with `libnet` a handle on the heap, or ends the program, whatever its calls answer.
  pub do_libnet_init-IsUp :
      (ifname : Option Text) (n : Net) (g : Globals)
      → IsNet fuel n
      → (r : Started) × (do_libnet_init fuel answers unprivileged ifname false n g ≡ some r)
        × IsUp fuel r
  unfolding do_libnet_init
  do_libnet_init-IsUp (some ifname) n g h =
      let (r, e, _, up) = init_named-Returned ifname false n g h in (r, e, up refl)
  do_libnet_init-IsUp none n g h =
      let (o, e, net) = attempt-IsNet none n g h in
      elim (Bool-cases (o.handle == 0)) [
        | inl null ↦ init_lo n g o e null net false
        | inr there ↦
            let up : Net = record { libnet = o.handle; memory = o.memory } in
            (started up (note g 1 "arping: libnet_init("), rw (e, there) refl, (ground arith, net))
      ]
