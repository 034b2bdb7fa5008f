-- ===== src/Easyfs/Dir/Tests.antt =====
-- Path names, creation and removal in a directory with one file.
use riscv_lab.Common.{
  ℕ, ◌≡◌, refl, true, false, Option, none, some, List, [], ◌∷◌, arith, replicate,
}
use riscv_lab.Common.Int.{pos}
use riscv_lab.Bitmap.Tests.{demo}
use riscv_lab.Bitmap.{read_bit, write_bit, all_ones, find_zero, scan_word, find_block, bitmap_alloc}
use riscv_lab.Easyfs.Super.{efs_imap_alloc}
use riscv_lab.Easyfs.Links.{f_reg, f_dir, MInode, efs_i_type, efs_i_new}
use riscv_lab.Easyfs.Dir.{
  slash, Dirent, Dentry, Tree, fill_entries, fill_if, find_child, efs_d_name_check,
}
use riscv_lab.Easyfs.Dir.Named.{
  root_dentry, find_hashed, Named, unset, panicked, named, named_loop, efs_d_named,
}
use riscv_lab.Easyfs.Dir.Edit.{efs_d_creat}
use riscv_lab.Easyfs.Dir.Path.{efs_d_named-leaks}
use riscv_lab.Easyfs.Dir.Create.{efs_d_name_check-efs_d_creat}

abbrev blank : MInode
blank = record {
  inode = record { ino = 1; size = 24; addrs = replicate 13 0; indir = none };
  kind = f_dir;
  nlink = pos 1;
  refcnt = pos 0;
  dirty = false;
  is_valid = true;
}

abbrev root : Dentry
root = record {
  entry = record { ino = 1; kind = f_dir; name = slash ∷ [] };
  parent = none;
  children = [];
  filled = false;
  dirty = false;
}

-- the root directory holds one file, whose name is the byte 97
abbrev file : ℕ → List Dirent
file ino = record { ino = 5; kind = f_reg; name = 97 ∷ [] } ∷ []

abbrev mounted : Tree
mounted = record {
  dents = λ d. root;
  fresh = 1 ∷ 2 ∷ [];
  hashed = [];
  inodes = λ i. blank;
  sb = record { imap = demo; bmap = demo; inode_free = pos 2; block_free = pos 2; dirty = false };
  buffers = 0;
}

abbrev no_hash : List ℕ → ℕ
no_hash path = 0

abbrev found_in : Named → Option ℕ
found_in (named o t) = o
found_in unset = none
found_in panicked = none

finds_file : found_in (efs_d_named file no_hash (slash ∷ 97 ∷ []) mounted) ≡ some 1
unfolding efs_d_named named_loop find_hashed efs_d_name_check fill_if find_child fill_entries
finds_file = refl

-- "/b/a": there is no directory b
abbrev tree_of : Option (Option ℕ × Tree) → Tree
tree_of none = mounted
tree_of (some r) = r.1

abbrev looked : Tree
looked = record mounted { buffers = 1 }

efs_d_named-leaks_example :
    (efs_d_named file no_hash (slash ∷ 98 ∷ slash ∷ 97 ∷ []) mounted
      ≡ named none (tree_of (efs_d_name_check file root_dentry (98 ∷ []) looked)))
    × ((tree_of (efs_d_name_check file root_dentry (98 ∷ []) looked)).buffers ≡ 1)
unfolding find_hashed efs_d_name_check fill_if find_child fill_entries
efs_d_named-leaks_example =
    efs_d_named-leaks file no_hash (98 ∷ []) [] (97 ∷ []) mounted
      (tree_of (efs_d_name_check file root_dentry (98 ∷ []) looked)) ((λ e. omega arith, tt), tt)
      (λ e. omega arith, tt) (omega arith) refl refl

abbrev read_root : Tree
read_root = record mounted { dents = λ d. record root { filled = true } }

abbrev with_b : Tree
with_b = tree_of (efs_d_creat file (some 0) (98 ∷ []) f_reg read_root)

efs_d_name_check-efs_d_creat_example :
    (efs_d_name_check file 0 (98 ∷ []) read_root ≡ some (none, read_root))
    × (efs_d_name_check file 0 (98 ∷ []) with_b ≡ some (some 1, with_b))
unfolding efs_d_creat efs_d_name_check fill_if find_child fill_entries efs_i_type efs_i_new
    efs_imap_alloc bitmap_alloc find_block scan_word find_zero all_ones read_bit write_bit
efs_d_name_check-efs_d_creat_example =
    efs_d_name_check-efs_d_creat file 0 1 (98 ∷ []) f_reg read_root with_b refl
      (λ e. omega arith, tt, (λ e. omega arith, tt, tt)) refl
