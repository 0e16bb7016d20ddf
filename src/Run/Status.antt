-- ===== src/Run/Status.antt =====
-- The exit status after the replies of a run, and what it says of their senders.
use arping.Prelude.{◌<◌, ◌≡◌, ◌↔◌, ◌∙◌, refl, true, false, List, [], ◌∷◌, arith, length}
use arping.State.{Globals, uint_mod}
use arping.Stats.{update_stats}
use arping.Recv.Accept.{Report, accept_ip, remember, count_reply}
use arping.Recv.Accept.Duplicates.{
  replies_after, macs, Differ, replies_after-dupfound, Remembers-Differ, Remembers-numrecvd,
}
use arping.Recv.Ip.Senders.{Refines}
use arping.Mac.{EthAddr}
use arping.Run.{exit_status}

accept_ip-finddup :
    (p : Report) (g : Globals) → (accept_ip p.len p.mac p.ip p.arrival g).finddup ≡ g.finddup
unfolding accept_ip remember count_reply update_stats
accept_ip-finddup p g = refl

replies_after-finddup : (g : Globals) (ps : List Report) → (replies_after g ps).finddup ≡ g.finddup
replies_after-finddup g [] = refl
replies_after-finddup g (p ∷ ps) =
    accept_ip-finddup p (replies_after g ps) ∙ replies_after-finddup g ps

-- With -d, after fewer than 2^32 replies, from a state with none and no duplicate, the exit status
-- is 1 exactly if two of the replies have different senders.
pub exit_status-Differ :
    (g : Globals) (ps : List Report)
    → g.finddup ≡ true
    → g.numrecvd ≡ 0
    → g.dupfound ≡ false
    → length ps < uint_mod
    → (exit_status (replies_after g ps) ≡ 1) ↔ Differ (macs ps)
unfolding exit_status
exit_status-Differ g ps find none_yet no_dup room =
    let (n, differ) = replies_after-dupfound g ps none_yet no_dup room in
    let kept = replies_after-finddup g ps ∙ find in
    (λ h. differ.0 (ground arith), λ d. let found = differ.1 d in ground arith)

-- Without -d, after fewer than 2^32 replies, from a state with none and no duplicate, the exit
-- status is 0 exactly if there was a reply.
pub exit_status-replies :
    (g : Globals) (ps : List Report)
    → g.finddup ≡ false
    → g.numrecvd ≡ 0
    → g.dupfound ≡ false
    → length ps < uint_mod
    → (exit_status (replies_after g ps) ≡ 0) ↔ (0 < length ps)
unfolding exit_status
exit_status-replies g ps find none_yet no_dup room =
    let (n, differ) = replies_after-dupfound g ps none_yet no_dup room in
    let kept = replies_after-finddup g ps ∙ find in ground arith

-- What the exit status says of the senders, the newest first.
pub record IsStatus (g : Globals) (senders : List EthAddr) : Type 0 where
  pub replies : g.numrecvd ≡ length senders
  pub duplicates : g.finddup ≡ true → (exit_status g ≡ 1) ↔ Differ senders
  pub any : g.finddup ≡ false → (exit_status g ≡ 0) ↔ (0 < length senders)

pub Refines-IsStatus :
    (start g : Globals) (senders : List EthAddr) → Refines start g senders → IsStatus g senders
unfolding exit_status
Refines-IsStatus start g senders r =
    let n = Remembers-numrecvd g senders r.remembers in
    let differ = Remembers-Differ g senders r.remembers in
    record {
      replies = n;
      duplicates =
          λ find. (λ h. differ.0 (ground arith), λ d. let found = differ.1 d in ground arith);
      any = λ find. ground arith;
    }
