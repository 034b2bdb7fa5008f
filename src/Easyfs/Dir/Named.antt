-- ===== src/Easyfs/Dir/Named.antt =====
-- Path names: efs_d_named of fs/easyfs/dentry.c.
use riscv_lab.Common.{
  ℕ, ◌+◌, ◌-◌, true, false, ◌&&◌, Option, none, some, List, [], ◌∷◌, ◌++◌, ◌==◌, if◌then◌else◌,
  take,
}
use riscv_lab.Easyfs.Links.{efs_i_dup}
use riscv_lab.Easyfs.Dir.{slash, same_name, Dirent, Dentry, Tree, efs_d_name_check}

-- efs_d_named reads the path byte by byte; `name` are the bytes since the last slash.
-- A name that is not found gives NULL, and the buffer of the path is not given back there.
abbrev pub give_back : Option ℕ × Tree → Option ℕ × Tree
give_back (o, t) = (o, record t { buffers = t.buffers - 1 })

abbrev pub enter_dir :
    (ℕ → Tree → Option (Option ℕ × Tree)) → Option (Option ℕ × Tree) → Option (Option ℕ × Tree)
enter_dir rest none = none
enter_dir rest (some (none, t)) = some (none, t)
enter_dir rest (some (some d, t)) = rest d t

abbrev pub last_dir : Option (Option ℕ × Tree) → Option (Option ℕ × Tree)
last_dir none = none
last_dir (some r) = some (give_back r)

-- if (*name) …
abbrev pub last_name : (ℕ → List Dirent) → List ℕ → ℕ → Tree → Option (Option ℕ × Tree)
last_name file [] d t = some (give_back (some d, t))
last_name file (c ∷ cs) d t = last_dir (efs_d_name_check file d (c ∷ cs) t)

unfoldable pub named_loop :
    (ℕ → List Dirent) → List ℕ → List ℕ → ℕ → Tree → Option (Option ℕ × Tree)
unfolding efs_d_name_check
named_loop file [] name d t = last_name file name d t
named_loop file (c ∷ cs) name d t = elim (c == slash) [
  | true ↦ enter_dir (named_loop file cs []) (efs_d_name_check file d name t)
  | false ↦ named_loop file cs (name ++ c ∷ []) d t
]

abbrev pub max_path_len : ℕ
max_path_len = 256

abbrev pub root_dentry : ℕ
root_dentry = 0

-- `strhash` gives the bucket of a name: the dentries of a bucket are those of `hashed` whose name
-- belongs there.
unfoldable pub find_hashed : (List ℕ → ℕ) → (ℕ → Dentry) → List ℕ → List ℕ → Option ℕ
find_hashed strhash dents [] path = none
find_hashed strhash dents (d ∷ ds) path =
    if (strhash (dents d).entry.name == strhash path) && same_name (dents d).entry.name path
    then some d
    else find_hashed strhash dents ds path

-- What a call of efs_d_named gives. A relative path starts from a pointer that is not set.
pub data Named : Type 0 where
  unset : Named
  panicked : Named
  named : Option ℕ → Tree → Named

abbrev pub as_named : Option (Option ℕ × Tree) → Named
as_named none = panicked
as_named (some (o, t)) = named o t

abbrev pub from_root : (ℕ → List Dirent) → List ℕ → Tree → Named
from_root file [] t = unset
from_root file (c ∷ cs) t =
    if c == slash then as_named (named_loop file cs [] root_dentry t) else unset

abbrev pub parse_path : (ℕ → List Dirent) → List ℕ → Tree → Option ℕ → Named
parse_path file path t (some d) = named (some d) t
parse_path file path t none =
    from_root file (take max_path_len path) (record t { buffers = t.buffers + 1 })

unfoldable pub efs_d_named : (ℕ → List Dirent) → (List ℕ → ℕ) → List ℕ → Tree → Named
unfolding named_loop find_hashed
efs_d_named file strhash path t = parse_path file path t (find_hashed strhash t.dents t.hashed path)

-- efs_d_namei gives the number of the inode, with one reference more.
abbrev pub held_in : Named → Named
held_in unset = unset
held_in panicked = panicked
held_in (named none t) = named none t
held_in (named (some d) t) =
    let ino = (t.dents d).entry.ino in
    named (some ino)
      (record t { inodes = λ k. if k == ino then efs_i_dup (t.inodes ino) else t.inodes k })

unfoldable pub efs_d_namei : (ℕ → List Dirent) → (List ℕ → ℕ) → List ℕ → Tree → Named
unfolding efs_d_named
efs_d_namei file strhash path t = held_in (efs_d_named file strhash path t)
