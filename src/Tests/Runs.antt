-- ===== src/Tests/Runs.antt =====
-- Runs of the senders and of the loop, over a libnet whose handle is the list of the blocks built and
-- which numbers them.
use arping.Prelude.{
  ℕ, ◌+◌, ◌≡◌, ◌≢◌, ◌⊎◌, refl, true, false, List, [], ◌∷◌, arith, pos, negsuc, length,
}
use arping.Host.Order.{Endian}
use arping.Host.Clock.{Reading, fixup_timespec, fixup_loop}
use arping.State.{initial, getclock}
use arping.Send.{
  Block, Libnet, Sender, is_error, stamp, announce, link_block, arp_block, transmit, pingip_send,
}
use arping.Wait.{wait_time}
use arping.Await.{
  Round, Select, ping_recv, rounds, round, end_of, time_left, passed, set_back, after_select,
  end_round,
}
use arping.Run.{Turn, Mode, Finish, done, waiting, broken, exited, ping_ip, ping_loop}
use arping.Run.Modes.{ping_ip-IsMode}
use arping.Run.Ends.{IsOver, ping_loop-ends}
use arping.Run.Sent.{ping_loop-exactly}

abbrev pub lib : Libnet (List Block)
lib = record { build = λ b tag l. (pos (length l + 1), b ∷ l); write = λ l. (pos 42, l) }

abbrev pub at : ℕ → ℕ → Reading
at s u = record { failed = false; sec = s; usec = u }

abbrev pub first : Sender (List Block)
first = record {
  arp_tag = pos 0;
  icmp_tag = pos 0;
  ipv4_tag = pos 0;
  eth_tag = pos 0;
  handle = [];
  globals = initial;
}

-- A turn in which `select` times out.
abbrev silent_round : Round
silent_round = record { clock = at 10 500000; signalled = false; select = Select.expired }

abbrev pub late_round : Round
late_round = record { clock = at 12 0; signalled = false; select = Select.interrupted }

abbrev pub turn : List Round → Turn
turn rds = record {
  rand = 7;
  before = at 10 0;
  after = at 10 0;
  waited = at 10 0;
  start = at 10 0;
  has_fd = true;
  rounds = rds;
}

abbrev mode : Mode (List Block)
mode = ping_ip lib Endian.little

turn-IsOver : IsOver 1000000 (turn (late_round ∷ []))
turn-IsOver = record {
  normal = omega arith;
  past = [];
  rest = [];
  last = late_round;
  rounds_are = refl;
  over = omega arith;
}

ping_loop-ends_example :
    ping_loop mode 1 1000000 (negsuc 999999999) 0 (turn (late_round ∷ []) ∷ []) first
    ≢ waiting first
ping_loop-ends_example =
    ping_loop-ends mode 1 1000000 (negsuc 999999999) 0 (turn (late_round ∷ []) ∷ []) first first
      (omega arith) (turn-IsOver, _) (omega arith)

abbrev two_turns : List Turn
two_turns = turn (silent_round ∷ []) ∷ turn (silent_round ∷ []) ∷ []

abbrev sender_of : Finish (List Block) → Sender (List Block)
sender_of (done s) = s
sender_of (waiting s) = s
sender_of broken = first
sender_of (exited g) = first

abbrev final : Sender (List Block)
final = sender_of (ping_loop mode 2 1000000 (negsuc 999999999) 0 two_turns first)

two_turns-done : ping_loop mode 2 1000000 (negsuc 999999999) 0 two_turns first ≡ done final
unfolding ping_loop pingip_send transmit announce stamp getclock wait_time ping_recv rounds round
    end_of time_left passed set_back after_select end_round fixup_timespec fixup_loop is_error
    link_block arp_block
two_turns-done = refl

ping_loop-exactly_example : (final.globals.numsent ≡ 2) ⊎ (final.globals.time_to_die ≡ true)
ping_loop-exactly_example =
    ping_loop-exactly mode 2 1000000 (negsuc 999999999) (ping_ip-IsMode lib Endian.little)
      (omega arith) 0 two_turns first final refl (omega arith) (omega arith) refl two_turns-done
