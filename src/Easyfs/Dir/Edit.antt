-- ===== src/Easyfs/Dir/Edit.antt =====
-- Creating, removing and renaming entries, and access to their files: fs/easyfs/dentry.c.
use riscv_lab.Common.{
  ℕ, ◌+◌, ◌-◌, ◌%◌, ◌^◌, Bool, true, false, not, ◌&&◌, Option, none, some, List, [], ◌∷◌, ◌==◌,
  if◌then◌else◌, take,
}
use riscv_lab.Common.Int.{ℤ, negsuc}
use riscv_lab.Easyfs.Super.{Super, is_zero}
use riscv_lab.Easyfs.Links.{
  FileType, MInode, efs_i_put, efs_i_dup, efs_i_type, efs_i_new, efs_i_unlink,
}
use riscv_lab.Easyfs.Dir.{
  dir_maxlen, is_dir, Dirent, Tree, set_dentry, connect, fill_if, efs_d_name_check,
}

abbrev pub set_inode : ℕ → MInode → Tree → Tree
set_inode ino i t = record t { inodes = λ k. if k == ino then i else t.inodes k }

-- d->d_inode->i_di.i_size
abbrev pub resize : (ℕ → ℕ) → ℕ → Tree → Tree
resize f ino t =
    let i = t.inodes ino in
    set_inode ino (record i { inode = record i.inode { size = f i.inode.size } }) t

abbrev pub dirent_size : ℕ
dirent_size = 24

abbrev pub mark_dirty_dir : ℕ → Tree → Tree
mark_dirty_dir d t = set_dentry d (record (t.dents d) { dirty = true }) t

-- the part of efs_d_creat behind its checks, with the new inode and the new object
abbrev pub add_entry :
    ℕ → List ℕ → FileType → Tree → Option (MInode × Super) → List ℕ → Option (Option ℕ × Tree)
add_entry pd name kind t none free = none
add_entry pd name kind t (some (i, sb)) [] = none
add_entry pd name kind t (some (i, sb)) (d ∷ ds) =
    let e : Dirent = record { ino = i.inode.ino; kind = kind; name = take dir_maxlen name } in
    let t' = set_inode i.inode.ino (efs_i_type kind i) (record t { sb = sb; fresh = ds }) in
    some (
      some d,
      mark_dirty_dir pd
          (resize (λ n. (n + dirent_size) % 2 ^ 32) (t.dents pd).entry.ino (connect d e pd t')),
    )

abbrev pub creat_checked :
    ℕ → List ℕ → FileType → Option (Option ℕ × Tree) → Option (Option ℕ × Tree)
creat_checked pd name kind none = none
creat_checked pd name kind (some (some d, t)) = some (none, t)
creat_checked pd name kind (some (none, t)) = add_entry pd name kind t (efs_i_new t.sb) t.fresh

-- NULL is `none` inside; `none` outside is a panic.
unfoldable pub efs_d_creat :
    (ℕ → List Dirent) → Option ℕ → List ℕ → FileType → Tree → Option (Option ℕ × Tree)
unfolding efs_d_name_check
efs_d_creat file none name kind t = some (none, t)
efs_d_creat file (some pd) name kind t =
    if not (is_dir (t.dents pd).entry.kind)
    then some (none, t)
    else creat_checked pd name kind (efs_d_name_check file pd name t)

abbrev pub filled_if : (ℕ → List Dirent) → ℕ → Tree → Option Tree
filled_if file d t = if is_dir (t.dents d).entry.kind then fill_if file d t else some t

-- list_del of the d_sibling node
unfoldable pub remove_child : ℕ → List ℕ → List ℕ
remove_child d [] = []
remove_child d (x ∷ xs) = if x == d then xs else x ∷ remove_child d xs

abbrev pub is_nil : List ℕ → Bool
is_nil [] = true
is_nil (x ∷ xs) = false

-- behind a successful efs_i_unlink; a parent that is NULL is read through: `none`
abbrev pub take_out : ℕ → Option ℕ → Tree → Option Tree
take_out d none t = none
take_out d (some pd) t =
    let t' =
      set_dentry pd (record (t.dents pd) { children = remove_child d (t.dents pd).children }) t in
    some (
      mark_dirty_dir pd
        (resize (λ n. (n + 2 ^ 32 - dirent_size) % 2 ^ 32) (t.dents pd).entry.ino t'))

abbrev pub after_unlink : ℕ → Tree → Option (ℤ × MInode × Super) → Option Tree
after_unlink d t none = none
after_unlink d t (some (r, i, sb)) =
    let t' = set_inode (t.dents d).entry.ino i (record t { sb = sb }) in
    if is_zero r then take_out d (t.dents d).parent t' else some t'

abbrev pub unlink_held : ℕ → Tree → Option MInode → Option Tree
unlink_held d t none = none
unlink_held d t (some i) = after_unlink d t (efs_i_unlink i t.sb)

-- The inode is found or its count goes up, and the count goes down again, before the unlink.
abbrev pub unlink_filled : ℕ → Option Tree → Option Tree
unlink_filled d none = none
unlink_filled d (some t) =
    if is_dir (t.dents d).entry.kind && not (is_nil (t.dents d).children)
    then some t
    else if (t.dents d).entry.ino == 1
    then some t
    else unlink_held d t (efs_i_put (efs_i_dup (t.inodes (t.dents d).entry.ino)))

unfoldable pub efs_d_unlink : (ℕ → List Dirent) → Option ℕ → Tree → Option Tree
unfolding fill_if remove_child
efs_d_unlink file none t = some t
efs_d_unlink file (some d) t = unlink_filled d (filled_if file d t)

abbrev pub rename_checked : ℕ → List ℕ → Option (Option ℕ × Tree) → Option Tree
rename_checked d name none = none
rename_checked d name (some (some other, t)) = some t
rename_checked d name (some (none, t)) =
    let e = (t.dents d).entry in
    elim (efs_i_put (efs_i_dup (t.inodes e.ino))) [
      | none ↦ none
      | some i ↦ some (
          set_inode e.ino i (
            set_dentry d (record (t.dents d) { entry = record e { name = take dir_maxlen name } })
              t))
    ]

-- A dentry without a parent is read through: `none`.
unfoldable pub efs_d_rename : (ℕ → List Dirent) → ℕ → List ℕ → Tree → Option Tree
unfolding efs_d_name_check
efs_d_rename file d name t = elim (t.dents d).parent [
  | none ↦ none
  | some pd ↦ rename_checked d name (efs_d_name_check file pd name t)
]

-- efs_d_read and efs_d_write around the inode's `io`; a result of -1 is `negsuc 0`
abbrev pub with_inode : (MInode → Option (ℤ × MInode)) → ℕ → Tree → Option (ℤ × Tree)
with_inode io d t = elim (io (efs_i_dup (t.inodes (t.dents d).entry.ino))) [
  | none ↦ none
  | some (r, i) ↦ elim (efs_i_put i) [
    | none ↦ none
    | some i' ↦ some (r, set_inode (t.dents d).entry.ino i' t)
  ]
]

unfoldable pub efs_d_read : (MInode → Option (ℤ × MInode)) → Option ℕ → Tree → Option (ℤ × Tree)
efs_d_read io none t = some (negsuc 0, t)
efs_d_read io (some d) t = with_inode io d t

unfoldable pub efs_d_write : (MInode → Option (ℤ × MInode)) → Option ℕ → Tree → Option (ℤ × Tree)
efs_d_write io none t = some (negsuc 0, t)
efs_d_write io (some d) t =
    if is_dir (t.dents d).entry.kind then some (negsuc 0, t) else with_inode io d t

-- efs_d_fsize, with the count back where it was
unfoldable pub efs_d_fsize : ℕ → Tree → ℕ
efs_d_fsize d t = (t.inodes (t.dents d).entry.ino).inode.size
