-- ===== src/Run.antt =====
-- The end of `arping_main` of arping.c: the deadline, the loop of packets and waits, and the exit
-- status. The two loops of the source differ in the sender and the handler, a `Mode`.
pub mod Modes
pub mod Ends
pub mod Sent
pub mod Status
pub mod Closing
pub mod Turns
pub mod Handed
pub mod Heard
pub mod Senders
pub mod Echoes
pub mod InBounds
pub mod Exits
use arping.Prelude.{
  ℕ, ◌+◌, Bool, true, false, List, [], ◌∷◌, ◌||◌, ◌==◌, leb, ltb_ℤ, if◌then◌else◌, ℤ, pos, ◌+ℤ◌,
}
use arping.Host.Order.{Endian}
use arping.Host.Clock.{Reading, timespec2dbl}
use arping.State.{Globals, getclock}
use arping.Send.{Libnet, Sender, pingip_send, pingmac_send}
use arping.Recv.Ip.{pingip_recv}
use arping.Recv.Echo.{pingmac_recv}
use arping.Wait.{wait_time}
use arping.Await.{Handler, Round, Ending, leave, again, fault, exit_1, ping_recv}

-- What the world does in one turn of the loop: `rand`, the clock of the sender, of `wait_time` and of
-- `ping_recv`, and the rounds of the latter.
pub record Turn : Type 0 where
  pub rand : ℕ
  pub before : Reading
  pub after : Reading
  pub waited : Reading
  pub start : Reading
  pub has_fd : Bool
  pub rounds : List Round

pub record Mode (L : Type 0) : Type 0 where
  pub send : ℕ → Turn → Sender L → Sender L
  pub recv : Handler

abbrev pub ping_ip : {L : Type 0} → Libnet L → Endian → Mode L
ping_ip lib e = record {
  send = λ c t s. pingip_send lib t.before t.after s;
  recv = λ r h p g. pingip_recv e r h p g;
}

abbrev pub ping_mac : {L : Type 0} → Libnet L → Endian → Mode L
ping_mac lib e = record {
  send = λ c t s. pingmac_send lib t.rand c t.before t.after s;
  recv = λ r h p g. pingmac_recv e r h p g;
}

-- How the loop ends. `waiting` is a loop that has not ended with what the world did so far.
pub data Finish (L : Type 0) : Type 0 where
  done waiting : Sender L → Finish L
  broken : Finish L  -- a handler has read out of bounds
  exited : Globals → Finish L

module _ {L : Type 0} (mode : Mode L) (maxcount packetwait : ℕ) (deadline : ℤ) where
  unfoldable pub ping_loop : ℕ → List Turn → Sender L → Finish L
  ping_loop c [] s = if leb maxcount c || s.globals.time_to_die then done s else waiting s
  ping_loop c (t ∷ ts) s =
      let s1 = mode.send c t s in
      let (w, g1) = wait_time t.waited deadline packetwait s1.globals in
      let s2 = record s1 { globals = g1 } in
      let rest : Finish L = elim (ping_recv mode.recv w t.start t.has_fd t.rounds g1) [
        | leave g2 ↦ ping_loop (c + 1) ts (record s1 { globals = g2 })
        | again g2 ↦ waiting (record s1 { globals = g2 })
        | fault ↦ broken
        | exit_1 g2 ↦ exited g2
      ] in
      if leb maxcount c || s.globals.time_to_die then done s else if w == 0 then done s2 else rest

-- `if (deadline > 0)`: the seconds given on the command line count from now.
unfoldable pub start_deadline : Reading → ℤ → Globals → ℤ × Globals
start_deadline r deadline g =
    if ltb_ℤ (pos 0) deadline
    then (let (ts, g') = getclock r g in (deadline +ℤ timespec2dbl ts, g'))
    else (deadline, g)

unfoldable pub exit_status : Globals → ℕ
exit_status g = if g.finddup then if g.dupfound then 1 else 0 else if g.numrecvd == 0 then 1 else 0
