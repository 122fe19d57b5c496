-- ===== src/Mountlist.antt =====
-- lib/mountlist.c: the list of the mounted file systems. `setmntent` and `getmntent` are the list of
-- the entries that they return, `hasmntopt` is a parameter (HAVE_HASMNTOPT is defined).
pub mod Readonly
pub mod Unmounted
use nagios_plugins_linux.Base.{
  ℕ, ◌-◌, ◌^◌, Bool, true, false, ◌&&◌, ◌||◌, [], ◌∷◌, List, Option, none, some, Bytes, codes,
  streq, starts_with, contains, ulong_max, if◌then◌else◌,
}
use nagios_plugins_linux.Base.Int.{ℤ, pos, negsuc}

-- `struct mntent`
pub record Mntent : Type 0 where
  pub mnt_fsname : Bytes
  pub mnt_dir : Bytes
  pub mnt_type : Bytes
  pub mnt_opts : Bytes

-- `struct mount_entry`, without the flags of what was allocated; a list of these is the linked list,
-- and the empty one the null pointer.
pub record MountEntry : Type 0 where
  pub me_devname : Bytes
  pub me_mountdir : Bytes
  pub me_type : Bytes
  pub me_opts : Bytes
  pub me_dev : ℕ
  pub me_dummy : Bool
  pub me_remote : Bool
  pub me_readonly : Bool

-- Whether a text is one of a list.
abbrev pub is_one_of : Bytes → List Bytes → Bool
is_one_of name [] = false
is_one_of name (n ∷ names) = streq name n || is_one_of name names

-- The types of the macro ME_DUMMY, in its order.
abbrev dummy_types : List Bytes
dummy_types =
    codes "cgroup2"
    ∷ codes "bfs"
    ∷ codes "tracefs"
    ∷ codes "cgroup"
    ∷ codes "configfs"
    ∷ codes "debugfs"
    ∷ codes "devpts"
    ∷ codes "devtmpfs"
    ∷ codes "fusectl"
    ∷ codes "hugetlbfs"
    ∷ codes "mqueue"
    ∷ codes "pstore"
    ∷ codes "rpc_pipefs"
    ∷ codes "securityfs"
    ∷ codes "selinuxfs"
    ∷ codes "sysfs"
    ∷ codes "devfs"
    ∷ codes "binfmt_misc"
    ∷ codes "none"
    ∷ codes "autofs"
    ∷ codes "proc"
    ∷ []

-- ME_DUMMY
unfoldable pub is_dummy : Bytes → Bool
is_dummy fs_type = is_one_of fs_type dummy_types

-- ME_REMOTE
unfoldable pub is_remote : Bytes → Bytes → Bool
is_remote fs_name fs_type =
    contains b':' fs_name
    || (starts_with (codes "//") fs_name
        && (streq fs_type (codes "smbfs") || streq fs_type (codes "cifs")))

-- `(dev_t) -1`
unfoldable pub dev_from_mount_options : Bytes → ℕ
dev_from_mount_options mount_options = ulong_max

module _ (hasmntopt : Mntent → Bytes → Bool) where
  unfoldable pub fs_check_if_readonly : Mntent → Bool
  fs_check_if_readonly mnt = hasmntopt mnt (codes "ro")

  unfoldable pub mount_entry : Mntent → MountEntry
  unfolding fs_check_if_readonly dev_from_mount_options is_dummy is_remote
  mount_entry mnt = record {
    me_devname = mnt.mnt_fsname;
    me_mountdir = mnt.mnt_dir;
    me_type = mnt.mnt_type;
    me_opts = mnt.mnt_opts;
    me_dev = dev_from_mount_options mnt.mnt_opts;
    me_dummy = is_dummy mnt.mnt_type;
    me_remote = is_remote mnt.mnt_fsname mnt.mnt_type;
    me_readonly = fs_check_if_readonly mnt;
  }

  -- The loop over `getmntent`, which appends each entry to the tail.
  unfoldable pub mount_entries : List Mntent → List MountEntry
  unfolding mount_entry
  mount_entries [] = []
  mount_entries (mnt ∷ rest) = mount_entry mnt ∷ mount_entries rest

  -- `none` is a table that `setmntent` cannot open; `closed` is whether `endmntent` succeeds.
  unfoldable pub read_file_system_list : Option (List Mntent) → Bool → List MountEntry
  unfolding mount_entries
  read_file_system_list none closed = []
  read_file_system_list (some mnts) closed = if closed then mount_entries mnts else []

-- The loop of `file_system_type_exists`.
type_exists : Bytes → List MountEntry → Option Bytes → ℤ × Option Bytes
type_exists fs_type [] fs_mp = (pos 0, fs_mp)
type_exists fs_type (me ∷ rest) fs_mp =
    if streq me.me_type fs_type
    then (pos 1, some me.me_mountdir)
    else type_exists fs_type rest fs_mp

non_empty : Bytes → List MountEntry → Option Bytes → ℤ × Option Bytes
unfolding type_exists
non_empty fs_type [] fs_mp = (negsuc 0, fs_mp)
non_empty fs_type (me ∷ rest) fs_mp = type_exists fs_type (me ∷ rest) fs_mp

-- The value returned, and `*fs_mp`; `mount_list` is what `read_file_system_list` returns.
unfoldable pub file_system_type_exists :
    Option Bytes → List MountEntry → Option Bytes → ℤ × Option Bytes
unfolding non_empty
file_system_type_exists none mount_list fs_mp = (negsuc 0, fs_mp)
file_system_type_exists (some fs_type) mount_list fs_mp = non_empty fs_type mount_list fs_mp
