-- ===== src/Tests/Systems.antt =====
-- A system with the users sshd and nobody, whose kernel allows root everything; and interfaces of Junos.
use arping.Prelude.{
  ◌≡◌, refl, true, false, [], ◌∷◌, none, some, ◌==◌, if◌then◌else◌, arith, codes, str_eq,
}
use arping.State.{message, initial}
use arping.Privileges.{Passwd, System, Running, drop_privileges, pick_group}
use arping.Privileges.Group.{group, must_get_group}
use arping.Privileges.Dropped.{RootMay, drop_privileges-drops}
use arping.GetMac.{
  Ifl, present, missing, Rtslib, Rts, ifl_get_device_byifindex, get_mac, strstr, is_prefix,
}
use arping.GetMac.Address.{logical, get_mac-IsDevice}
use arping.GetMac.Underlying.{at_bottom, down, bottom, ifl_get_device_byifindex-Way}

abbrev pub sshd : Passwd
sshd = record { pw_uid = 74; pw_gid = 74; pw_dir = codes "/var/empty" }

abbrev pub other : Passwd
other = record { pw_uid = 99; pw_gid = 99; pw_dir = codes "/" }

abbrev pub root_only : System
root_only = record {
  getpwnam = λ name.
      if str_eq name (codes "sshd")
      then some sshd
      else if str_eq name (codes "nobody")
      then some other
      else none;
  getpwnam_errno = λ name. false;
  groups = record { getgrnam = λ name. if str_eq name (codes "wheel") then some 10 else none };
  allows = λ c p. p.uid == 0;
}

pub root_only-RootMay : RootMay root_only
root_only-RootMay c p root = ground arith

abbrev pub started_as_root : Running
started_as_root = record {
  process = record { uid = 0; gid = 0; groups = 0 ∷ []; cwd = codes "/root"; root = codes "/" };
  globals = initial;
}

wheel : pick_group root_only (some (codes "wheel")) 99 ≡ group 10
unfolding pick_group must_get_group str_eq
wheel = refl

pub sshd_found : root_only.getpwnam (codes "sshd") ≡ some sshd
unfolding str_eq
sshd_found = refl

pub nobody_found : root_only.getpwnam (codes "nobody") ≡ some other
unfolding str_eq
nobody_found = refl

drop_privileges-drops_example :
    (r' : Running) × (drop_privileges root_only (some (codes "wheel")) started_as_root ≡ some r')
    × (r'.process ≡ record {
      uid = 99;
      gid = 10;
      groups = [];
      cwd = codes "/var/empty";
      root = codes "/var/empty";
    })
drop_privileges-drops_example =
    drop_privileges-drops root_only started_as_root sshd other (some (codes "wheel")) 10
      root_only-RootMay refl sshd_found nobody_found wheel (omega arith) (omega arith)

-- The interface 7 lies over 3, which lies over none.
abbrev pub upper : Ifl
upper = record { iflm_index = 7; iflm_underlying_index = 3; name = codes "irb" }

abbrev pub lower : Ifl
lower = record { iflm_index = 3; iflm_underlying_index = 0; name = codes "ge-0/0/0" }

abbrev pub two_layers : Rtslib
two_layers = record {
  rtslib_open = λ cookies. true;
  iflm_get_by_index =
      λ n. if n == 7 then present upper else if n == 3 then present lower else missing;
  iflm_get_by_name = λ dev subunit. (false, some upper);
  ifl_get_device_name = λ name. some (codes "irb", 7);
  ifdm_get_by_name = λ dev. some (2 ∷ 0 ∷ 0 ∷ 0 ∷ 0 ∷ 7 ∷ []);
}

abbrev pub no_cookies : Rts
no_cookies = record { cookies = 0; out = [] }

ifl_get_device_byifindex-Way_example :
    ifl_get_device_byifindex two_layers 3 7 no_cookies
    ≡ some (true, record { cookies = 0; out = message (codes "ge-0/0/0") ∷ [] })
ifl_get_device_byifindex-Way_example =
    ifl_get_device_byifindex-Way two_layers 3 7 no_cookies (upper ∷ lower ∷ []) bottom refl
      (down (omega arith) refl (down (omega arith) refl (at_bottom refl))) (omega arith)

get_mac-IsDevice_example :
    (r' : Rts) × (get_mac two_layers 3 (codes "irb.7") no_cookies
      ≡ some (record { m0 = 2; m1 = 0; m2 = 0; m3 = 0; m4 = 0; m5 = 7 }, r'))
unfolding strstr is_prefix
get_mac-IsDevice_example =
    get_mac-IsDevice two_layers 2 0 0 0 0 7 [] 3 (codes "irb.7") (codes "irb") no_cookies
      (logical 7 false upper (upper ∷ lower ∷ []) bottom refl refl refl
        (down (omega arith) refl (down (omega arith) refl (at_bottom refl))) (omega arith))
      refl
