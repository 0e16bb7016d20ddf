-- ===== src/Lib.antt =====
-- arping, as it stands in this repository: a ping on the Ethernet layer. It sends ARP requests for
-- an IPv4 address, or ICMP echo requests to a MAC address, and reports and counts the replies.
--
-- The program is arping.c, with the search for an interface in findif_getifaddrs.c, a `libnet_init`
-- of its own in libnet_init_custom.c, the MAC address of the interface in get_mac.c, unix.c, and
-- `main` in arping_main.c.
-- `arping_main` reads the options, settles the mode, the target and the interface, opens libnet and
-- libpcap, drops its privileges, then alternates `pingip_send` or `pingmac_send` with `ping_recv`,
-- which waits in `select` and lets libpcap hand each packet to `pingip_recv` or `pingmac_recv`. The
-- parts share the file-scope variables of arping.c; `sigint` and every error set `time_to_die`, at
-- which the loops stop.
--
--   Prelude   lists, integers and texts over the native numbers
--   Mac       `is_mac_addr`, `get_mac_addr`, with the `sscanf` it needs, and `format_mac` (arping.c)
--   Host      byte order; `struct timespec`, `fixup_timespec` and `timespec2dbl` (arping.c)
--   State     the file-scope variables, `sigint` and `getclock` (arping.c)
--   Stats     `update_stats` (arping.c)
--   Recv      `pingip_recv` (Recv/Ip, and Recv/Accept from `update_stats` on) and `pingmac_recv`
--             (Recv/Echo) (arping.c)
--   Findif    `arping_lookupdev` (findif_getifaddrs.c)
--   Wait      `wait_time` (arping.c)
--   Await     `ping_recv` (arping.c)
--   Send      `pingip_send` and `pingmac_send` (arping.c), with libnet as a parameter
--   Sqrt      `sqrt` (arping.c)
--   Usage     the usage texts (arping.c)
--   Stage     the variables of `arping_main` between the options and the interface, with `libnet` and
--             its heap, and the calls of `do_libnet_init` there (arping.c)
--   Options   the options of `arping_main` and the tests that follow them (arping.c)
--   Choose    the mode, the target and the interface in `arping_main` (arping.c), and
--             `arping_lookupdev_default` (unix.c)
--   Handle    `libnet_init`, `libnet_destroy` and `libnet_clear_packet` over a heap
--             (libnet_init_custom.c)
--   Setup     `do_libnet_init`, `strip_newline` and `do_pcap_open_live` (arping.c)
--   Privileges  `drop_privileges` and what it calls (arping.c)
--   GetMac    `get_mac` and `ifl_get_device_byifindex` (get_mac.c)
--   Prepare   `arping_main` from the interface to the first packet (arping.c), with `do_signal_init`
--             (unix.c)
--   Duration  `ts2str` (arping.c)
--   Run       the deadline, the loops, the closing statistics and the exit status of `arping_main`
--             (arping.c)
--   Main      `arping_main` (arping.c), of all these parts, and `main` (arping_main.c)
--   Tests     the theorems at concrete inputs
--
-- A packet is the list of the bytes that were captured, and a read behind them is `none`, which no
-- branch of the model catches. The globals are one record, handed from call to call; what is
-- printed is a list in it, a constructor for each format. Words have the byte order of the host, a
-- parameter. A `double` of seconds is the integer of its nanoseconds: rounding is not modelled, but in
-- `ts2str`, where the arithmetic of doubles is a parameter and `while` has fuel for its divisions.
-- Counters wrap at 2^32 as in C. What the world does, the clock, `select`, the packets, SIGINT and
-- the answers of libnet, is an argument: the loops of `ping_recv` and `arping_main` run over lists
-- of rounds and turns, and `again` and `waiting` are a loop that has used up its list.
-- `fixup_timespec` has fuel of one round for each second in the negative nanoseconds, and one more,
-- and `sqrt` of one round for each number of the range; both are proved to be enough. A handle of
-- libnet is cleared with fuel for its blocks, of which it has none before the first packet, and
-- `ifl_get_device_byifindex` runs with fuel for the stack of interfaces: `none` where it is used up,
-- or where a pointer leads nowhere.
--
-- libnet, libpcap, the kernel, the databases of users and groups, and the Junos calls of get_mac.c
-- are parameters. Of a message that is printed the model has the fixed text in front, not what the
-- formats insert into it; the replies, the statistics and the durations have their numbers.
--
-- Not modelled: `getopt` and `atof`, so that the options come one by one with their arguments, and
-- `atof` is a parameter; and the rounding of `double` and `float`. A failure of `pcap_dispatch` is one
-- that delivers nothing. libnet_test.c calls `libnet_init` with a pointer that is not set. The libnet
-- directory and include/libnet.h are headers of the libnet library.
pub mod Prelude
pub mod Mac
pub mod Host
pub mod State
pub mod Stats
pub mod Recv
pub mod Findif
pub mod Wait
pub mod Await
pub mod Send
pub mod Sqrt
pub mod Run
pub mod Handle
pub mod Setup
pub mod Stage
pub mod Privileges
pub mod Choose
pub mod GetMac
pub mod Prepare
pub mod Usage
pub mod Duration
pub mod Options
pub mod Main
pub mod Tests
