-- ===== src/GetMac/Underlying.antt =====
-- The loop of `ifl_get_device_byifindex` goes down to the device at the bottom.
use arping.Prelude.{
  ℕ, zero, suc, ◌+◌, ◌≤◌, ◌≡◌, ◌≢◌, ◌∙◌, ap, Bool, true, false, some, List, [], ◌∷◌, ◌++◌, ◌==◌,
  if◌then◌else◌, arith, length, append-nil, append_assoc,
}
use arping.State.{Output, message}
use arping.GetMac.{Ifl, failed, missing, present, Rtslib, Rts, underlying, ifl_get_device_byifindex}

-- How the way down ends: at an index 0, with an error, or with no message.
pub data End : Type 0 where
  bottom error no_message : End

-- The interfaces on the way down from an index.
pub data Way (rts : Rtslib) : ℕ → List Ifl → End → Type 0 where
  at_bottom : {n : ℕ} → n ≡ 0 → Way rts n [] bottom
  at_error : {n : ℕ} → n ≢ 0 → rts.iflm_get_by_index n ≡ failed → Way rts n [] error
  at_none : {n : ℕ} → n ≢ 0 → rts.iflm_get_by_index n ≡ missing → Way rts n [] no_message
  down :
      {n : ℕ} {i : Ifl} {is : List Ifl} {e : End}
      → n ≢ 0
      → rts.iflm_get_by_index n ≡ present i
      → Way rts i.iflm_underlying_index is e
      → Way rts n (i ∷ is) e

-- The name that is printed: that of the device over nothing.
abbrev pub device : List Ifl → List Output
device [] = []
device (i ∷ is) = (if i.iflm_underlying_index == 0 then message i.name ∷ [] else []) ++ device is

-- The cookies that stay open.
abbrev pub left_open : End → ℕ
left_open no_message = 1
left_open _ = 0

abbrev pub succeeds : End → Bool
succeeds bottom = true
succeeds _ = false

underlying_step :
    (rts : Rtslib) (fuel c n : ℕ) (out : List Output) (i : Ifl)
    → n ≢ 0
    → rts.iflm_get_by_index n ≡ present i
    → underlying rts (suc fuel) n (record { cookies = c + 1; out = out })
      ≡ underlying rts fuel i.iflm_underlying_index (record {
        cookies = c + 1;
        out = out ++ (if i.iflm_underlying_index == 0 then message i.name ∷ [] else []);
      })
unfolding underlying
underlying_step rts fuel c n out i z q = ground (arith, append-nil out)

underlying-Way :
    (rts : Rtslib) (fuel c n : ℕ) (out : List Output) (is : List Ifl) (e : End)
    → Way rts n is e
    → suc (length is) ≤ fuel
    → underlying rts fuel n (record { cookies = c + 1; out = out })
      ≡ some (succeeds e, record { cookies = c + left_open e; out = out ++ device is })
unfolding underlying
underlying-Way rts zero c n out is e w room = absurd (omega arith)
underlying-Way rts (suc fuel) c n out is e (at_bottom z) room = ground (arith, append-nil out)
underlying-Way rts (suc fuel) c n out is e (at_error z q) room = ground (arith, append-nil out)
underlying-Way rts (suc fuel) c n out is e (at_none z q) room = ground (arith, append-nil out)
underlying-Way rts (suc fuel) c n out (i ∷ is) e (down z q w) room =
    let next : List Output =
      out ++ (if i.iflm_underlying_index == 0 then message i.name ∷ [] else []) in
    underlying_step rts fuel c n out i z q
    ∙ underlying-Way rts fuel c i.iflm_underlying_index next is e w (omega arith)
    ∙ ap (λ o. some (succeeds e, record { cookies = c + left_open e; out = o }))
        (append_assoc out _ (device is))

-- Down a finite stack of interfaces, with fuel for its height, `ifl_get_device_byifindex` prints the name
-- of the one that lies over no other, and returns 0. On an error in between it returns -1; so too where
-- an interface has no message, but then the cookie that it opened stays open.
pub ifl_get_device_byifindex-Way :
    (rts : Rtslib) (fuel n : ℕ) (r : Rts) (is : List Ifl) (e : End)
    → rts.rtslib_open r.cookies ≡ true
    → Way rts n is e
    → suc (length is) ≤ fuel
    → ifl_get_device_byifindex rts fuel n r
      ≡ some (succeeds e, record { cookies = r.cookies + left_open e; out = r.out ++ device is })
unfolding ifl_get_device_byifindex
ifl_get_device_byifindex-Way rts fuel n r is e opens w room =
    rw opens (underlying-Way rts fuel r.cookies n r.out is e w room)
