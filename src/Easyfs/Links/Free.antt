-- ===== src/Easyfs/Links/Free.antt =====
-- efs_i_data_free gives back the blocks of a file; its inode keeps naming them.
use riscv_lab.Common.{
  ℕ, ◌<◌, ◌≡◌, ◌≢◌, inl, inr, refl, sym, ◌∙◌, ap, subst, true, false, Option, none, some, List, [],
  ◌∷◌, arith, In, NotIn, Distinct, ne_of_In, take, ◌==◌, leb, if◌then◌else◌, Bool-cases,
}
use riscv_lab.Common.Int.{pos, ◌+ℤ◌}
use riscv_lab.Bitmap.{Bitmap, read_bit, free_index, bitmap_free, bitmap_is_free}
use riscv_lab.Bitmap.Bits.{read-write_self, read-write_ne}
use riscv_lab.Bitmap.Inv.{in_map}
use riscv_lab.Easyfs.Super.{Super, is_zero, efs_bmap_free}
use riscv_lab.Easyfs.Super.Inv.{IsSuper, BlockFreed, efs_bmap_free-BlockFreed}
use riscv_lab.Easyfs.Links.{
  MInode, free_blocks, efs_i_data_free, then_indirect, emptied_in, efs_i_trunc,
}

-- the block numbers before the first 0
abbrev pub held : List ℕ → List ℕ
held [] = []
held (b ∷ bs) = if b == 0 then [] else b ∷ held bs

-- blocks that are in use, each once
abbrev pub InUse : List ℕ → Super → Type 0
InUse bs s = Distinct bs × ((b : ℕ) → In b bs → (b < s.bmap.size) × (read_bit s.bmap.map b ≡ true))

-- The blocks `bs` are free in the result, and no other bit has changed.
abbrev pub Frees : List ℕ → Super → Option Super → Type 0
Frees bs s none = ⊥
Frees bs s (some s') =
    IsSuper s'
    × (s'.bmap.size ≡ s.bmap.size)
    × ((b : ℕ) → In b bs → read_bit s'.bmap.map b ≡ false)
    × ((b : ℕ) → NotIn b bs → read_bit s'.bmap.map b ≡ read_bit s.bmap.map b)

free-size : (m : Bitmap) (b : ℕ) → (bitmap_free m (pos b)).size ≡ m.size
unfolding bitmap_free free_index
free-size m b = elim (Bool-cases (leb m.size b)) [
  | inl out ↦ rw out refl
  | inr h ↦ elim (Bool-cases (read_bit m.map b)) [
    | inl used ↦ rw (h, used) refl
    | inr free ↦ rw (h, free) refl
  ]
]

efs_bmap_free-size :
    (s s' : Super) (b : ℕ) → efs_bmap_free (pos b) s ≡ some s' → s'.bmap.size ≡ s.bmap.size
unfolding efs_bmap_free
efs_bmap_free-size s s' b e = elim (Bool-cases (is_zero (bitmap_is_free s.bmap (pos b)))) [
  | inl z ↦ sized (rw z at e)
  | inr nz ↦ absurd (none≢some (rw nz at e))
]
  where
    none≢some : none ≡ some s' → ⊥
    none≢some q = cc

    sized :
        some (record s {
          bmap = bitmap_free s.bmap (pos b);
          block_free = s.block_free +ℤ pos 1;
          dirty = true;
        })
          ≡ some s'
        → s'.bmap.size ≡ s.bmap.size
    sized q = ap (λ o. elim o [ none ↦ 0 | some t ↦ t.bmap.size ]) (sym q) ∙ free-size s.bmap b

module _ (s : Super) (b : ℕ) (bs : List ℕ) where
  freed_first :
      InUse (b ∷ bs) s
      → (s' : Super) → s'.bmap.size ≡ s.bmap.size
      → BlockFreed s b (some s')
      → IsSuper s
      → InUse bs s'
  freed_first u s' z (v', h, used, e) v = (
    u.0.1,
    λ c i.
        let ne : b ≢ c = λ q. ne_of_In c b bs i u.0.0 (sym q) in
        let (hc, uc) = u.1 c (inr i) in
        (omega (arith, hc), ap (λ m. read_bit m c) e ∙ read-write_ne s.bmap.map b false c ne ∙ uc),
  )

  Frees-then :
      InUse (b ∷ bs) s
      → IsSuper s
      → (s' : Super) → s'.bmap.size ≡ s.bmap.size
      → BlockFreed s b (some s')
      → (o : Option Super) → Frees bs s' o
      → Frees (b ∷ bs) s o
  Frees-then u v s' z f none g = g
  Frees-then u v s' z (v', h, used, e) (some t) (vt, zt, off, same) = (
    vt,
    zt ∙ z,
    (λ c i. elim i [
      | inl q ↦
          subst (λ x. read_bit t.bmap.map x ≡ false) (sym q)
            (same b u.0.0
              ∙ ap (λ m. read_bit m b) e
              ∙ read-write_self s.bmap.map b false v.blocks.words (in_map s.bmap v.blocks b h))
      | inr j ↦ off c j
    ]),
    λ c n.
        same c n.1
        ∙ ap (λ m. read_bit m c) e
        ∙ read-write_ne s.bmap.map b false c (λ q. n.0 (sym q)),
  )

freeing :
    (b : ℕ) (bs : List ℕ) (s : Super)
    → IsSuper s
    → InUse (b ∷ held bs) s
    → (o : Option Super) → efs_bmap_free (pos b) s ≡ o
    → BlockFreed s b o
    → ((s' : Super) → IsSuper s' → InUse (held bs) s' → Frees (held bs) s' (free_blocks bs s'))
    → Frees (b ∷ held bs) s (elim o [ none ↦ none | some s' ↦ free_blocks bs s' ])
freeing b bs s v u none e f rest = elim f [
  | inl out ↦ omega (arith, (u.1 b (inl refl)).0)
  | inr free ↦ cc ((u.1 b (inl refl)).1, free)
]
freeing b bs s v u (some s') e f rest =
    let z = efs_bmap_free-size s s' b e in
    Frees-then s b (held bs) u v s' z f (free_blocks bs s')
      (rest s' f.0 (freed_first s b (held bs) u s' z f v))

free_blocks-Frees :
    (bnos : List ℕ) (s : Super)
    → IsSuper s
    → InUse (held bnos) s
    → Frees (held bnos) s (free_blocks bnos s)
unfolding free_blocks
free_blocks-Frees [] s v u = (v, refl, (λ b i. absurd i), λ b n. refl)
free_blocks-Frees (b ∷ bs) s v u = elim (Bool-cases (b == 0)) [
  | inl z ↦ rw z (v, refl, (λ c i. absurd i), λ c n. refl)
  | inr nz ↦
      let u' : InUse (b ∷ held bs) s = rw nz at u in
      rw nz (
        freeing b bs s v u' (efs_bmap_free (pos b) s) refl (efs_bmap_free-BlockFreed s b v)
          (λ s' v' w. free_blocks-Frees bs s' v' w))
]

-- A truncated file without an indirect block: it is empty and names the same blocks as before.
abbrev pub Truncates : MInode → Super → Option (MInode × Super) → Type 0
Truncates i s none = ⊥
Truncates i s (some (i', s')) =
    (i'.inode.size ≡ 0)
    × (i'.inode.addrs ≡ i.inode.addrs)
    × Frees (held (take 13 i.inode.addrs)) s (some s')

-- Truncating a file that has no indirect block and whose blocks are in use, each once, empties it
-- and gives all its blocks back, no other block; its inode still names them, so that a later access
-- to the file finds blocks that are free.
pub efs_i_trunc-Truncates :
    (i : MInode) (s : Super)
    → IsSuper s
    → i.inode.indir ≡ none
    → InUse (held (take 13 i.inode.addrs)) s
    → Truncates i s (efs_i_trunc i s)
unfolding efs_i_trunc efs_i_data_free
efs_i_trunc-Truncates i s v direct u =
    subst
      (λ x. Truncates i s (emptied_in i (then_indirect x (free_blocks (take 13 i.inode.addrs) s))))
      (sym direct)
      (truncated (free_blocks (take 13 i.inode.addrs) s)
        (free_blocks-Frees (take 13 i.inode.addrs) s v u))
  where
    truncated :
        (o : Option Super)
        → Frees (held (take 13 i.inode.addrs)) s o
        → Truncates i s (emptied_in i (then_indirect none o))
    truncated none f = f
    truncated (some s') f = (refl, refl, f)
