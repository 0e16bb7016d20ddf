-- ===== src/Recv/Accept.antt =====
-- What `pingip_recv` does with a packet that passed its tests: statistics, output, the test for a
-- second sender, and the count of replies.
pub mod Duplicates
use arping.Prelude.{
  ℕ, ◌+◌, ◌-◌, ◌%◌, Bool, true, false, Option, none, some, List, [], ◌∷◌, ◌++◌, not, ◌&&◌, ◌||◌,
  ◌==◌, leb, if◌then◌else◌, ◌-ℤ◌, codes,
}
use arping.Mac.{EthAddr, eth_eq}
use arping.Host.Clock.{Timespec, timespec2dbl}
use arping.State.{
  Display, normal, quiet, raw, rraw, rawraw, dot, Output, bell, bang, newline, reply, show_mac,
  show_ip, show_mac_ip, Globals, uint_mod, sigint, print, note,
}
use arping.Stats.{update_stats}

-- What the handler passes on about a packet that it takes.
pub record Report : Type 0 where
  pub len : ℕ
  pub mac : EthAddr
  pub ip : ℕ
  pub arrival : Timespec

-- `switch(display)`, with the newline of the second switch. `%u` prints `numsent - 1`.
unfoldable pub shown : Display → Globals → ℕ → EthAddr → ℕ → Timespec → List Output
shown dot g len mac ip arrival = bang ∷ []
shown normal g len mac ip arrival =
    reply len mac ip g.numrecvd
      (if g.alsototal then some ((g.numsent + uint_mod - 1) % uint_mod) else none) g.lastpacketsent
      arrival
    ∷ newline
    ∷ []
shown quiet g len mac ip arrival = []
shown rawraw g len mac ip arrival = show_mac_ip mac ip ∷ newline ∷ []
shown rraw g len mac ip arrival = show_ip ip ∷ newline ∷ []
shown raw g len mac ip arrival = show_mac mac ∷ newline ∷ []

unfoldable pub beeped : Bool → List Output
beeped b = if b then bell ∷ [] else []

-- `if (numrecvd) { if (memcmp(lastreplymac, pkt_srcmac)) dupfound = 1; }` and the `memcpy`.
unfoldable pub remember : EthAddr → Globals → Globals
remember mac g = record g {
  dupfound = if not (g.numrecvd == 0) && not (eth_eq g.lastreplymac mac) then true else g.dupfound;
  lastreplymac = mac;
}

-- `numrecvd++`, and `sigint(0)` at `max_replies`.
unfoldable pub count_reply : Globals → Globals
count_reply g =
    let n = (g.numrecvd + 1) % uint_mod in
    record g { numrecvd = n; time_to_die = leb g.max_replies n || g.time_to_die }

unfoldable pub accept_ip : ℕ → EthAddr → ℕ → Timespec → Globals → Globals
accept_ip len mac ip arrival g =
    let measured = update_stats g (timespec2dbl arrival -ℤ timespec2dbl g.lastpacketsent) in
    let printed = record measured {
      out =
          measured.out
          ++ beeped measured.beep
          ++ shown measured.display measured len mac ip arrival;
    } in
    count_reply (remember mac printed)
