-- ===== src/Await.antt =====
-- `ping_recv` of arping.c: the wait for packets. What `select` answers in each round, the packets that
-- `pcap_dispatch` then hands to the handler, the clock and SIGINT are a list of rounds.
pub mod Window
pub mod Ends
pub mod Counts
pub mod Hears
pub mod Handed
pub mod Listened
pub mod Rounds
pub mod Senders
pub mod Echoes
pub mod InBounds
use arping.Prelude.{
  ℕ, ◌+◌, ◌*◌, ◌/◌, ◌%◌, Bool, true, false, Option, none, some, List, [], ◌∷◌, ◌++◌, not, ◌&&◌,
  ◌||◌, ◌==◌, if◌then◌else◌, ℤ, pos, ◌+ℤ◌, ◌-ℤ◌, ltb_ℤ, equal_ℤ, pos_part, codes, Text,
}
use arping.Host.Order.{Packet, ◌>>=◌}
use arping.Host.Clock.{Timespec, Reading, fixup_timespec}
use arping.State.{
  Display, normal, dot, Output, bell, timeout, period, message, Globals, note, print, sigint,
  getclock,
}
use arping.Recv.{PktHdr}

-- A packet that `pcap_dispatch` delivers, and the clock that its handler reads.
pub record Delivery : Type 0 where
  pub clock : Reading
  pub header : PktHdr
  pub packet : Packet

-- What `select` returns: 0, -1 with EINTR or another error, or a descriptor that can be read.
pub data Select : Type 0 where
  expired interrupted failed : Select
  ready : List Delivery → Select

pub record Round : Type 0 where
  pub clock : Reading
  pub signalled : Bool  -- SIGINT has arrived before the test of `time_to_die`
  pub select : Select

-- One of the two packet handlers.
abbrev pub Handler : Type 0
Handler = Reading → PktHdr → Packet → Globals → Option Globals

-- `pcap_dispatch`.
unfoldable pub dispatch : Handler → List Delivery → Globals → Option Globals
dispatch func [] g = some g
dispatch func (d ∷ ds) g = do g' ← func d.clock d.header d.packet g; dispatch func ds g'

-- How a round ends: the function returns, the loop goes on, a handler has read out of bounds, or the
-- program exits.
pub data Ending : Type 0 where
  leave again : Globals → Ending
  fault : Ending
  exit_1 : Globals → Ending

-- `for (;!done;)`.
unfoldable pub end_round : Bool → Globals → Ending
end_round true g = leave g
end_round false g = again g

-- The time until `endtime`.
unfoldable pub time_left : Timespec → Timespec → Timespec
time_left endtime now =
    fixup_timespec
      (record { tv_sec = endtime.tv_sec -ℤ now.tv_sec; tv_nsec = endtime.tv_nsec -ℤ now.tv_nsec })

-- The first `done`: the time has passed.
unfoldable pub passed : Timespec → Bool
passed ts = ltb_ℤ ts.tv_sec (pos 0)

-- The second: more is left than the whole wait, so the clock was set back.
unfoldable pub set_back : ℕ → Timespec → Bool
set_back packetwait ts =
    ltb_ℤ (pos (packetwait / 1000000)) ts.tv_sec
    || (equal_ℤ ts.tv_sec (pos (packetwait / 1000000))
        && ltb_ℤ (pos (packetwait % 1000000)) (pos (pos_part ts.tv_nsec / 1000)))

-- What a `select` that timed out prints when nothing was received.
unfoldable pub missed : Globals → List Output
missed g =
    (if g.reverse_beep then bell ∷ [] else [])
    ++ elim g.display [ normal ↦ timeout ∷ [] | dot ↦ period ∷ [] | _ ↦ [] ]

-- The switch over `select`, and the dispatch. After the first `done` the time left is 0 seconds and
-- 1 nanosecond, which is never more than the wait; so `done` is one of the two.
unfoldable pub after_select : Handler → ℕ → Bool → Select → Globals → Ending
after_select func old_received done expired g =
    leave (if g.numrecvd == old_received then record g { out = g.out ++ missed g } else g)
after_select func old_received done interrupted g = end_round done g
after_select func old_received done failed g =
    leave (record (sigint g) { out = g.out ++ message (codes "arping: select() failed") ∷ [] })
after_select func old_received done (ready ds) g = elim (dispatch func ds g) [
  | none ↦ fault
  | some g' ↦ end_round done g'
]

module _ (func : Handler) (packetwait : ℕ) (endtime : Timespec) (old_received : ℕ) where
  -- One round of the loop.
  unfoldable pub round : Round → Globals → Ending
  round rd g =
      let (now, g1) = getclock rd.clock g in
      let left = time_left endtime now in
      let g2 = note g1 2 "arping: listen for replies" in
      let done = passed left || set_back packetwait left in
      let g3 = record g2 { time_to_die = rd.signalled || g2.time_to_die } in
      if g3.time_to_die then leave g3 else after_select func old_received done rd.select g3

  unfoldable pub rounds : List Round → Globals → Ending
  rounds [] g = again g
  rounds (rd ∷ rds) g = elim (round rd g) [
    | leave g' ↦ leave g'
    | again g' ↦ rounds rds g'
    | fault ↦ fault
    | exit_1 g' ↦ exit_1 g'
  ]

-- The end of the wait that starts at `now`.
unfoldable pub end_of : Timespec → ℕ → Timespec
end_of now packetwait = fixup_timespec (record {
  tv_sec = now.tv_sec +ℤ pos (packetwait / 1000000);
  tv_nsec = now.tv_nsec +ℤ pos (1000 * (packetwait % 1000000));
})

-- `has_fd` is false if `pcap_get_selectable_fd` returned -1. `again` is a wait that has not ended with
-- the rounds given.
unfoldable pub ping_recv : Handler → ℕ → Reading → Bool → List Round → Globals → Ending
ping_recv func packetwait start has_fd rds g =
    let (now, g1) = getclock start (note g 3 "arping: receiving packets...") in
    if not has_fd
    then exit_1 (print g1 (message (codes "arping: pcap_get_selectable_fd()=-1")))
    else rounds func packetwait (end_of now packetwait) g1.numrecvd rds g1
