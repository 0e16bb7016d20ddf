-- ===== src/Privileges/Dropped.antt =====
-- What is left of root's privileges.
use Prim.Native.String.{String}
use arping.Prelude.{
  ℕ, ◌≡◌, ◌≢◌, ◌∙◌, ap, refl, true, false, Option, some, [], ◌==◌, Text, codes, arith,
}
use arping.Privileges.Group.{group}
use arping.Privileges.{
  Process, Call, chdir, chroot, setgroups, setgid, setuid, Passwd, System, Running, apply, call,
  jail, drop_fs_root, unless_zero, drop_uid, nobody, pick_group, drop_to, drop_privileges,
}

-- The kernel allows root every call.
abbrev pub RootMay : System → Type 0
RootMay sys = (c : Call) (p : Process) → p.uid ≡ 0 → sys.allows c p ≡ true

call_allowed :
    (sys : System) (c : Call) (failure : String) (r : Running)
    → sys.allows c r.process ≡ true
    → call sys c failure r ≡ (true, record r { process = apply c r.process })
unfolding call
call_allowed sys c failure r e = rw e refl

jail-process :
    (sys : System) (r : Running) (pw : Passwd)
    → RootMay sys
    → r.process.uid ≡ 0
    → (jail sys (some pw) r).process ≡ record r.process { cwd = pw.pw_dir; root = pw.pw_dir }
unfolding jail
jail-process sys r pw may root =
    let r1 : Running = record r { process = apply (chdir pw.pw_dir) r.process } in
    rw
      (
        call_allowed sys (chdir pw.pw_dir) "arping: chdir(" r (may _ _ root),
        call_allowed sys (chroot pw.pw_dir) "arping: chroot(" r1 (may _ _ root),
      )
      refl

drop_fs_root-process :
    (sys : System) (r : Running) (sshd : Passwd)
    → RootMay sys
    → r.process.uid ≡ 0
    → sys.getpwnam (codes "sshd") ≡ some sshd
    → (drop_fs_root sys r).process ≡ record r.process { cwd = sshd.pw_dir; root = sshd.pw_dir }
unfolding drop_fs_root
drop_fs_root-process sys r sshd may root s =
    ap (λ x. (jail sys x r).process) s ∙ jail-process sys r sshd may root

-- The user goes last, since the group could not be changed after it.
drop_uid-process :
    (sys : System) (r : Running) (uid gid : ℕ)
    → RootMay sys
    → r.process.uid ≡ 0
    → (uid == 0) ≡ false
    → (gid == 0) ≡ false
    → (drop_uid sys uid gid r).process ≡ record r.process { uid = uid; gid = gid; groups = [] }
unfolding drop_uid unless_zero
drop_uid-process sys r uid gid may root u g =
    let r1 : Running = record r { process = apply (setgroups []) r.process } in
    let r2 : Running = record r1 { process = apply (setgid gid) r1.process } in
    rw
      (
        u,
        g,
        call_allowed sys (setgroups []) "arping: setgroups(0, NULL): " r (may _ _ root),
        call_allowed sys (setgid gid) "arping: setgid(): " r1 (may _ _ root),
        call_allowed sys (setuid uid) "arping: setuid(): " r2 (may _ _ root),
      )
      refl

drop_privileges-group :
    (sys : System) (r : Running) (other : Passwd) (drop_group : Option Text) (gid : ℕ)
    → sys.getpwnam (codes "nobody") ≡ some other
    → pick_group sys drop_group other.pw_gid ≡ group gid
    → drop_privileges sys drop_group r ≡ some (drop_uid sys other.pw_uid gid (drop_fs_root sys r))
unfolding drop_privileges nobody drop_to
drop_privileges-group sys r other drop_group gid n chosen =
    ap (λ x. let (uid, g, r1) = nobody sys x r in drop_to sys uid (pick_group sys drop_group g) r1)
      n
    ∙ ap (λ found. drop_to sys other.pw_uid found r) chosen

-- Started as root, which the kernel allows every call, on a system with the users sshd and nobody, and
-- with no 0 for the id of nobody or for the group, which is that of -g if there is one: after
-- `drop_privileges` the root and the directory are those of sshd, the ids are those of nobody and of
-- the group, and no supplementary group is left.
pub drop_privileges-drops :
    (sys : System) (r : Running) (sshd other : Passwd) (drop_group : Option Text) (gid : ℕ)
    → RootMay sys
    → r.process.uid ≡ 0
    → sys.getpwnam (codes "sshd") ≡ some sshd
    → sys.getpwnam (codes "nobody") ≡ some other
    → pick_group sys drop_group other.pw_gid ≡ group gid
    → other.pw_uid ≢ 0
    → gid ≢ 0
    → (r' : Running) × (drop_privileges sys drop_group r ≡ some r')
      × (r'.process ≡ record {
        uid = other.pw_uid;
        gid = gid;
        groups = [];
        cwd = sshd.pw_dir;
        root = sshd.pw_dir;
      })
drop_privileges-drops sys r sshd other drop_group gid may root s n chosen u g = (
  drop_uid sys other.pw_uid gid (drop_fs_root sys r),
  drop_privileges-group sys r other drop_group gid n chosen,
  drop_uid-process sys (drop_fs_root sys r) other.pw_uid gid may
        (ap (λ p. p.uid) (drop_fs_root-process sys r sshd may root s) ∙ root) (ground arith)
        (ground arith)
      ∙ ap {A = Process} (λ p. record p { uid = other.pw_uid; gid = gid; groups = [] })
          (drop_fs_root-process sys r sshd may root s),
)
