-- ===== src/Privileges/Quiet.antt =====
-- Dropping the privileges changes the variables of arping.c only by what it prints.
use Prim.Native.String.{String}
use arping.Prelude.{ℕ, ◌≡◌, Option, some, Text, codes, arith}
use arping.Privileges.Group.{group, no_group, Found}
use arping.Privileges.{
  Call, Passwd, System, Running, call, jail, drop_fs_root, unless_zero, drop_uid, nobody,
  pick_group, drop_to, drop_privileges,
}

-- Only the output differs.
pub record IsQuiet (r r' : Running) : Type 0 where
  pub same : r'.globals ≡ record r.globals { out = r'.globals.out }

IsQuiet-trans : (r1 r2 r3 : Running) → IsQuiet r1 r2 → IsQuiet r2 r3 → IsQuiet r1 r3
IsQuiet-trans r1 r2 r3 a b = record { same = ground (arith, a.same, b.same) }

module _ (sys : System) where
  call-IsQuiet : (c : Call) (s : String) (r : Running) → IsQuiet r (call sys c s r).1
  unfolding call
  call-IsQuiet c s r = record { same = ground arith }

  unless_zero-IsQuiet :
      (id : ℕ) (c : Call) (s : String) (r : Running) → IsQuiet r (unless_zero sys id c s r).1
  unfolding unless_zero
  unless_zero-IsQuiet id c s r = record { same = ground (arith, (call-IsQuiet c s r).same) }

  drop_fs_root-IsQuiet : (r : Running) → IsQuiet r (drop_fs_root sys r)
  unfolding drop_fs_root jail call
  drop_fs_root-IsQuiet r = record { same = ground arith }

  drop_uid-IsQuiet : (uid gid : ℕ) (r : Running) → IsQuiet r (drop_uid sys uid gid r)
  unfolding drop_uid call unless_zero
  drop_uid-IsQuiet uid gid r = record { same = ground arith }

  nobody-IsQuiet : (x : Option Passwd) (r : Running) → IsQuiet r (nobody sys x r).2
  unfolding nobody
  nobody-IsQuiet x r = record { same = ground arith }

  drop_to-IsQuiet :
      (uid : ℕ) (f : Found) (r r' : Running) → drop_to sys uid f r ≡ some r' → IsQuiet r r'
  unfolding drop_to
  drop_to-IsQuiet uid (group gid) r r' q =
      let r1 = drop_fs_root sys r in
      let a =
        IsQuiet-trans r r1 (drop_uid sys uid gid r1) (drop_fs_root-IsQuiet r)
          (drop_uid-IsQuiet uid gid r1) in
      record { same = ground (arith, a.same) }
  drop_to-IsQuiet uid no_group r r' q = absurd (ground arith)

  pub drop_privileges-IsQuiet :
      (drop_group : Option Text) (r r' : Running)
      → drop_privileges sys drop_group r ≡ some r'
      → IsQuiet r r'
  unfolding drop_privileges
  drop_privileges-IsQuiet drop_group r r' q =
      let found = nobody sys (sys.getpwnam (codes "nobody")) r in
      IsQuiet-trans r found.2 r' (nobody-IsQuiet (sys.getpwnam (codes "nobody")) r)
        (drop_to-IsQuiet found.0 (pick_group sys drop_group found.1) found.2 r' q)
