-- ===== src/Easyfs/Data/Blocks.antt =====
-- efs_i_bmap without allocation looks up a fixed map from blocks of the file to blocks of the disk.
use riscv_lab.Common.{
  ℕ, ◌-◌, ◌≡◌, inl, inr, refl, sym, ◌∙◌, ap, false, none, some, List, get_or, ◌==◌, ltb, ==→eq,
  Bool-cases, Option-cases, if◌then◌else◌,
}
use riscv_lab.Common.Int.{pos}
use riscv_lab.Easyfs.Super.{Super}
use riscv_lab.Easyfs.Inode.{
  Inode, Mapped, ndirect, nindirect, bmap_addr, words, bmap_entry, load, bmap_indirect, efs_i_bmap,
}

-- the entries of the indirect block, from the disk where it is not read yet
abbrev pub entries : (ℕ → List ℕ) → Inode → List ℕ
entries f i = elim i.indir [ none ↦ f (get_or i.addrs ndirect 0) | some ws ↦ ws ]

-- the disk block of the block `l` of the file, 0 where it has none
unfoldable pub block_of : (ℕ → List ℕ) → Inode → ℕ → ℕ
block_of f i l =
    if ltb l ndirect
    then get_or i.addrs l 0
    else if ltb (l - ndirect) nindirect
    then (if get_or i.addrs ndirect 0 == 0 then 0 else get_or (entries f i) (l - ndirect) 0)
    else 0

-- The block is looked up, and at most the indirect block is read.
abbrev pub LooksUp : (ℕ → List ℕ) → ℕ → Inode → Super → Mapped → Type 0
LooksUp f l i s none = ⊥
LooksUp f l i s (some (bno, i', s')) =
    (bno ≡ block_of f i l)
    × (s' ≡ s)
    × (i'.size ≡ i.size)
    × ((k : ℕ) → block_of f i' k ≡ block_of f i k)

addr_found :
    (n : ℕ) (i : Inode) (s : Super) → bmap_addr n false i s ≡ some (get_or i.addrs n 0, i, s)
unfolding bmap_addr
addr_found n i s = elim (Bool-cases (get_or i.addrs n 0 == 0)) [
  | inl z ↦ rw (z, ==→eq (get_or i.addrs n 0) 0 z) refl
  | inr nz ↦ rw nz refl
]

entry_found :
    (n : ℕ) (i : Inode) (s : Super)
    → bmap_entry n false i s ≡ some (get_or (words i.indir) n 0, i, s)
unfolding bmap_entry
entry_found n i s = elim (Bool-cases (get_or (words i.indir) n 0 == 0)) [
  | inl z ↦ rw (z, ==→eq (get_or (words i.indir) n 0) 0 z) refl
  | inr nz ↦ rw nz refl
]

module _ (f : ℕ → List ℕ) (i : Inode) (s : Super) where
  abbrev with_indirect : Inode
  with_indirect = load f (get_or i.addrs ndirect 0) i

  loaded_words : words with_indirect.indir ≡ entries f i
  loaded_words = elim (Option-cases i.indir) [ inl e ↦ rw e refl | inr (ws, e) ↦ rw e refl ]

  loaded_block : (k : ℕ) → block_of f with_indirect k ≡ block_of f i k
  unfolding block_of
  loaded_block k = elim (Option-cases i.indir) [ inl e ↦ rw e refl | inr (ws, e) ↦ rw e refl ]

  loaded_size : with_indirect.size ≡ i.size
  loaded_size = elim (Option-cases i.indir) [ inl e ↦ rw e refl | inr (ws, e) ↦ rw e refl ]

  entry_of : ℕ → ℕ
  entry_of n = if get_or i.addrs ndirect 0 == 0 then 0 else get_or (entries f i) n 0

  indirect-LooksUp :
      (n l : ℕ) → block_of f i l ≡ entry_of n → LooksUp f l i s (bmap_indirect f n false i s)
  unfolding bmap_indirect entry_of
  indirect-LooksUp n l e = elim (Bool-cases (get_or i.addrs ndirect 0 == 0)) [
    | inl z ↦ rw z (sym (e ∙ rw z refl), refl, refl, λ k. refl)
    | inr nz ↦
        rw (nz, entry_found n with_indirect s)
          (
            ap (λ ws. get_or ws n 0) loaded_words ∙ sym (e ∙ rw nz refl),
            refl,
            loaded_size,
            loaded_block,
          )
  ]

  -- Without allocation efs_i_bmap never panics, and gives the block of the map.
  pub bmap-LooksUp : (l : ℕ) → LooksUp f l i s (efs_i_bmap f (pos l) false i s)
  unfolding efs_i_bmap block_of entry_of
  bmap-LooksUp l = elim (Bool-cases (ltb l ndirect)) [
    | inl h ↦ rw (h, addr_found l i s) (rw h refl, refl, refl, λ k. refl)
    | inr h ↦ elim (Bool-cases (ltb (l - ndirect) nindirect)) [
      | inl k ↦ rw (h, k) (indirect-LooksUp (l - ndirect) l (rw (h, k) refl))
      | inr k ↦ rw (h, k) (rw (h, k) refl, refl, refl, λ j. refl)
    ]
  ]
