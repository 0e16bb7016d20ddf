-- ===== src/Privileges.antt =====
-- `drop_privileges` of arping.c and what it calls. The system is a parameter: the databases of users and
-- groups, and whether the kernel allows a call, which then changes the process.
pub mod Group
pub mod Dropped
pub mod Quiet
use Prim.Native.String.{String}
use arping.Prelude.{
  ℕ, ◌+◌, Bool, true, false, not, ◌&&◌, Option, none, some, List, [], ◌∷◌, ◌++◌, ◌==◌,
  if◌then◌else◌, Text, codes,
}
use arping.State.{Output, Globals, note}
use arping.Privileges.Group.{Groups, Found, group, no_group, must_get_group}

-- What the calls change of a process: the effective ids, the supplementary groups, and two directories.
pub record Process : Type 0 where
  pub uid : ℕ
  pub gid : ℕ
  pub groups : List ℕ
  pub cwd : Text
  pub root : Text

pub data Call : Type 0 where
  chdir chroot : Text → Call
  setgroups : List ℕ → Call
  setgid setuid : ℕ → Call

abbrev pub apply : Call → Process → Process
apply (chdir dir) p = record p { cwd = dir }
apply (chroot dir) p = record p { root = dir }
apply (setgroups gs) p = record p { groups = gs }
apply (setgid g) p = record p { gid = g }
apply (setuid u) p = record p { uid = u }

-- `struct passwd`.
pub record Passwd : Type 0 where
  pub pw_uid : ℕ
  pub pw_gid : ℕ
  pub pw_dir : Text

-- `getpwnam`, and whether it left an `errno` when it found nothing; `getgrnam`.
pub record System : Type 0 where
  pub getpwnam : Text → Option Passwd
  pub getpwnam_errno : Text → Bool
  pub groups : Groups
  pub allows : Call → Process → Bool

-- The process and the globals, of which only the output changes.
pub record Running : Type 0 where
  pub process : Process
  pub globals : Globals

abbrev pub say : ℕ → String → Running → Running
say level s r = record r { globals = note r.globals level s }

module _ (sys : System) where
  -- A call, and the message if it fails and `verbose` is set.
  unfoldable pub call : Call → String → Running → Bool × Running
  call c failure r =
      if sys.allows c r.process
      then (true, record r { process = apply c r.process })
      else (false, say 0 failure r)

  -- With what `getpwnam` has found.
  unfoldable pub jail : Option Passwd → Running → Running
  jail none r = say 0 "arping: getpwnam(" r
  jail (some pw) r =
      let (moved, r1) = call (chdir pw.pw_dir) "arping: chdir(" r in
      let (jailed, r2) = call (chroot pw.pw_dir) "arping: chroot(" r1 in
      if not moved
      then r1
      else if not jailed
      then r2
      else say 1 "arping: Successfully chrooted to " r2

  unfoldable pub drop_fs_root : Running → Running
  drop_fs_root r = jail (sys.getpwnam (codes "sshd")) r

  -- `gid && setgid(gid)`: nothing is called for 0.
  unfoldable pub unless_zero : ℕ → Call → String → Running → Bool × Running
  unless_zero id c failure r = if id == 0 then (true, r) else call c failure r

  unfoldable pub drop_uid : ℕ → ℕ → Running → Running
  drop_uid uid gid r =
      let (a, r1) = call (setgroups []) "arping: setgroups(0, NULL): " r in
      let (b, r2) = unless_zero gid (setgid gid) "arping: setgid(): " r1 in
      let (c, r3) = unless_zero uid (setuid uid) "arping: setuid(): " r2 in
      if a && b && c then say 1 "arping: Successfully dropped uid/gid to " r3 else r3

  abbrev pub drop_capabilities : Running → Running
  drop_capabilities r = r

  -- The ids of `nobody`, or 0 and 0.
  unfoldable pub nobody : Option Passwd → Running → ℕ × ℕ × Running
  nobody (some pw) r = (pw.pw_uid, pw.pw_gid, r)
  nobody none r = (
    0,
    0,
    if sys.getpwnam_errno (codes "nobody")
        then say 0 "arping: getpwnam(nobody): " r
        else say 0 "arping: getpwnam(nobody): unknown user" r,
  )

  -- `if (drop_group != NULL)`.
  unfoldable pub pick_group : Option Text → ℕ → Found
  pick_group none gid = group gid
  pick_group (some ident) gid = must_get_group sys.groups ident

  -- `none` is `exit(1)` in `must_get_group`.
  unfoldable pub drop_to : ℕ → Found → Running → Option Running
  drop_to uid (group gid) r = some (drop_capabilities (drop_uid uid gid (drop_fs_root r)))
  drop_to uid no_group r = none

  unfoldable pub drop_privileges : Option Text → Running → Option Running
  drop_privileges drop_group r =
      let (uid, gid, r1) = nobody (sys.getpwnam (codes "nobody")) r in
      drop_to uid (pick_group drop_group gid) r1
