-- ===== src/Easyfs/Dir.antt =====
-- Directory entries: fs/easyfs/dentry.c. A dentry is named by a number, a name is the list of its
-- bytes; the d_sibling nodes of a directory are the list of its children, in order. The sleep lock
-- of a directory makes each call one step. What a directory file holds is an argument.
pub mod Named
pub mod Edit
pub mod Path
pub mod Create
mod Tests
use riscv_lab.Common.{
  ℕ, zero, suc, ◌+◌, ◌-◌, ◌%◌, ◌^◌, Bool, true, false, not, ◌&&◌, Option, none, some, List, [], ◌∷◌,
  ◌++◌, ◌==◌, if◌then◌else◌, take,
}
use riscv_lab.Common.Int.{ℤ, pos, negsuc}
use riscv_lab.Easyfs.Super.{Super}
use riscv_lab.Easyfs.Links.{
  FileType, f_none, f_reg, f_dir, f_dev, MInode, efs_i_put, efs_i_dup, efs_i_sdirty, efs_i_type,
  efs_i_new, efs_i_unlink,
}

abbrev pub dir_maxlen : ℕ
dir_maxlen = 16

abbrev pub slash : ℕ
slash = 47

-- strncmp of `n` bytes is 0, for strings without their NUL
abbrev pub same_bytes : ℕ → List ℕ → List ℕ → Bool
same_bytes zero a b = true
same_bytes (suc n) [] [] = true
same_bytes (suc n) [] (y ∷ ys) = false
same_bytes (suc n) (x ∷ xs) [] = false
same_bytes (suc n) (x ∷ xs) (y ∷ ys) = (x == y) && same_bytes n xs ys

abbrev pub is_dir : FileType → Bool
is_dir f_dir = true
is_dir f_none = false
is_dir f_reg = false
is_dir f_dev = false

-- efs_d_namecmp(a, b) == 0
abbrev pub same_name : List ℕ → List ℕ → Bool
same_name a b = same_bytes dir_maxlen a b

-- `struct easy_dirent`
pub record Dirent : Type 0 where
  pub ino : ℕ
  pub kind : FileType
  pub name : List ℕ

-- `filled` is the flag D_CHILD.
pub record Dentry : Type 0 where
  pub entry : Dirent
  pub parent : Option ℕ
  pub children : List ℕ
  pub filled : Bool
  pub dirty : Bool

-- `fresh` are the objects that kmem_cache_alloc gives; `hashed` are the dentries of s_dhash, the
-- last added first; `inodes` are the inodes by number; `buffers` counts the path buffers that kmalloc gave and kfree did not take.
pub record Tree : Type 0 where
  pub dents : ℕ → Dentry
  pub fresh : List ℕ
  pub hashed : List ℕ
  pub inodes : ℕ → MInode
  pub sb : Super
  pub buffers : ℕ

abbrev pub set_dentry : ℕ → Dentry → Tree → Tree
set_dentry d x t = record t { dents = λ a. if a == d then x else t.dents a }

-- efs_d_alloc with an entry, and efs_d_conn
abbrev pub connect : ℕ → Dirent → ℕ → Tree → Tree
connect d e pd t =
    let t' : Tree =
      set_dentry d
        (record { entry = e; parent = some pd; children = []; filled = false; dirty = false }) t in
    set_dentry pd (record (t'.dents pd) { children = (t'.dents pd).children ++ d ∷ [] }) t'

abbrev pub add_hash : ℕ → Tree → Tree
add_hash d t = record t { hashed = d ∷ t.hashed }

-- `none` is the assertion on a failed allocation.
unfoldable pub fill_entries : List Dirent → ℕ → List ℕ → Tree → Option Tree
fill_entries [] pd free t = some (record t { fresh = free })
fill_entries (e ∷ es) pd [] t = none
fill_entries (e ∷ es) pd (d ∷ ds) t = fill_entries es pd ds (add_hash d (connect d e pd t))

abbrev pub mark_filled : ℕ → Option Tree → Option Tree
mark_filled pd none = none
mark_filled pd (some t) = some (set_dentry pd (record (t.dents pd) { filled = true }) t)

-- efs_d_fill with the entries of the directory file, and the flag
unfoldable pub fill_if : (ℕ → List Dirent) → ℕ → Tree → Option Tree
unfolding fill_entries
fill_if file pd t =
    if (t.dents pd).filled
    then some t
    else mark_filled pd (fill_entries (file (t.dents pd).entry.ino) pd t.fresh t)

-- list_for_each_entry over the children
unfoldable pub find_child : (ℕ → Dentry) → List ℕ → List ℕ → Option ℕ
find_child dents [] name = none
find_child dents (d ∷ ds) name =
    if same_name (dents d).entry.name name then some d else find_child dents ds name

abbrev pub checked : ℕ → List ℕ → Option Tree → Option (Option ℕ × Tree)
checked pd name none = none
checked pd name (some t) = some (find_child t.dents (t.dents pd).children name, t)

unfoldable pub efs_d_name_check : (ℕ → List Dirent) → ℕ → List ℕ → Tree → Option (Option ℕ × Tree)
unfolding fill_if find_child
efs_d_name_check file pd name t = checked pd name (fill_if file pd t)
