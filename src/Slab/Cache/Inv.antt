-- ===== src/Slab/Cache/Inv.antt =====
-- What a well-formed cache is: which slabs are on which list, and which of their objects are free.
use riscv_lab.Common.{
  ℕ, ◌<◌, ◌≡◌, ◌⊎◌, inl, inr, sym, ◌∙◌, ap, subst, true, false, List, ◌∷◌, ◌++◌, arith, length,
  ◌==◌, if◌then◌else◌, In, NotIn, not_In, In-skip, In-middle, Apart-of, NotIn-of, lt→ltb, le→ltb,
}
use riscv_lab.Dlist.{Links, list_add_head, list_del, list_empty}
use riscv_lab.Dlist.Ring.{list_add_head-IsRing}
use riscv_lab.Dlist.Frame.{list_add_head-Same, list_del-Same, list_add_head_frame}
use riscv_lab.Lru.Inv.{TwoRings, TwoRings-swap, TwoRings-del, outside_own, outside_other}
use riscv_lab.Slab.{Slab, is_slab_partial}
use riscv_lab.Slab.Stack.{IsSlab}
use riscv_lab.Slab.Cache.{KmemCache}

-- a slab of the cache: on one of the lists, or the slab of a hart
abbrev pub Live : KmemCache → List ℕ → List ℕ → ℕ → Type 0
Live k ps fs a = In a ps ⊎ In a fs ⊎ ((cpu : ℕ) × (a ≡ k.cache_cpu cpu))

-- The slabs `ps` have free objects, the slabs `fs` have none; `free` gives the free objects of
-- each slab, the next one first. The slabs of the harts are on neither list.
pub record IsCache (k : KmemCache) (ps fs : List ℕ) (free : ℕ → List ℕ) : Type 0 where
  pub listed : k.is_listed ≡ true
  pub rings : TwoRings k.links k.part_slabs ps k.full_slabs fs
  pub slab : (a : ℕ) → Live k ps fs a → IsSlab k.count_per_slab (k.slabs a) (free a)
  pub room : (a : ℕ) → In a ps → 0 < length (free a)
  pub full : (a : ℕ) → In a fs → length (free a) ≡ 0
  pub off_part : (cpu : ℕ) → NotIn (k.cache_cpu cpu) (k.part_slabs ∷ ps)
  pub off_full : (cpu : ℕ) → NotIn (k.cache_cpu cpu) (k.full_slabs ∷ fs)
  pub alone : (cpu : ℕ) → list_empty (k.cache_cpu cpu) k.links ≡ true

abbrev pub put : ℕ → List ℕ → (ℕ → List ℕ) → ℕ → List ℕ
put a xs free b = if b == a then xs else free b

pub TwoRings-add_head :
    (l : Links) (h e k : ℕ) (xs zs : List ℕ)
    → TwoRings l h xs k zs
    → NotIn e (h ∷ xs)
    → NotIn e (k ∷ zs)
    → TwoRings (list_add_head e h l) h (e ∷ xs) k zs
TwoRings-add_head l h e k xs zs t n m = record {
  left = list_add_head-IsRing l h e xs t.left n;
  right = list_add_head_frame l h k zs t.right e xs t.left (
      Apart-of (k ∷ zs) (e ∷ h ∷ xs) (λ a i j. elim j [
        | inl q ↦ not_In e (k ∷ zs) m (subst (λ b. In b (k ∷ zs)) q i)
        | inr j' ↦ t.apart a j' i
      ]));
  apart = λ a i j. elim i [
    | inl q ↦ t.apart a (inl q) j
    | inr (inl q) ↦ not_In e (k ∷ zs) m (subst (λ b. In b (k ∷ zs)) q j)
    | inr (inr i') ↦ t.apart a (inr i') j
  ];
}

-- a node that moves from the left ring to the front of the right one
module _ (l : Links) (h k e : ℕ) (xs ys zs : List ℕ) (t : TwoRings l h (xs ++ e ∷ ys) k zs) where
  abbrev pub moved : Links
  moved = list_add_head e k (list_del e l)

  pub TwoRings-move : TwoRings moved h (xs ++ ys) k (e ∷ zs)
  TwoRings-move = TwoRings-swap moved k (e ∷ zs) h (xs ++ ys) (
      TwoRings-add_head (list_del e l) k e h zs (xs ++ ys)
        (TwoRings-swap (list_del e l) h (xs ++ ys) k zs (TwoRings-del l h e k xs ys zs t))
        (outside_other l h e k xs ys zs t) (outside_own l h e k xs ys zs t))

  -- a node that is alone stays so
  pub moved_empty :
      (c : ℕ)
      → NotIn c (h ∷ xs ++ e ∷ ys)
      → NotIn c (k ∷ zs)
      → list_empty c l ≡ true
      → list_empty c moved ≡ true
  unfolding list_empty
  moved_empty c n m e0 =
      let d = TwoRings-del l h e k xs ys zs t in
      let out : NotIn c (h ∷ xs ++ ys) =
        NotIn-of c (h ∷ xs ++ ys)
          (λ i. not_In c (h ∷ xs ++ e ∷ ys) n (In-skip c (h ∷ xs) e ys i)) in
      let first = list_del-Same l h e c xs ys t.left out in
      let second =
        list_add_head-Same (list_del e l) k e c zs d.right
          (λ q.
            not_In c (h ∷ xs ++ e ∷ ys) n
              (subst (λ b. In b (h ∷ xs ++ e ∷ ys)) (sym q) (In-middle (h ∷ xs) e ys)))
          m in
      ap (λ (x : ℕ). x == c) (second.0 ∙ first.0) ∙ e0

-- a slab has a free object exactly if it is partial
pub partial_room :
    (n : ℕ) (s : Slab) (xs : List ℕ) → IsSlab n s xs → 0 < length xs → is_slab_partial s n ≡ true
unfolding is_slab_partial
partial_room n s xs v h = lt→ltb s.inuse n (omega (arith, v.counted, h))

pub partial_none :
    (n : ℕ) (s : Slab) (xs : List ℕ) → IsSlab n s xs → length xs ≡ 0 → is_slab_partial s n ≡ false
unfolding is_slab_partial
partial_none n s xs v h = le→ltb s.inuse n (omega (arith, v.counted, h))
