-- ===== src/Vm/Tree.antt =====
-- The tree of page tables of kernel/vm.c, and what a new table changes in it.
use Prim.Native.Nat.{bit_or}
use riscv_lab.Common.{
  ℕ, zero, suc, ◌+◌, ◌*◌, ◌%◌, ◌<◌, ◌≡◌, ◌≢◌, inl, inr, refl, sym, ap, ◌∙◌, subst, true, false,
  List, ◌∷◌, arith, Bool-cases, In, Distinct, ◌==◌, if◌then◌else◌, ℕ_discrete, ne_of_In,
}
use riscv_lab.Vm.{Vm, Memory, px, pte2pa, pa2pte, valid, slot, write, clear_page}
use riscv_lab.Vm.Bits.{valid-bit_or, pte2pa-pa2pte}

-- `lev t` is the level of the table at `t`, and 3 where there is none; `pre t` are the bits of the
-- virtual address above those that the table resolves.
pub record Tree : Type 0 where
  pub lev : ℕ → ℕ
  pub pre : ℕ → ℕ

-- Every valid entry of the two upper levels names a table of the level below, for its bits.
pub record IsTree (root : ℕ) (g : Tree) (s : Vm) : Type 0 where
  pub root_lev : g.lev root ≡ 2
  pub root_pre : g.pre root ≡ 0
  pub aligned : (t : ℕ) → g.lev t < 3 → t % 4096 ≡ 0
  pub below :
      (t i l : ℕ)
      → i < 512
      → g.lev t ≡ suc l
      → l < 2
      → valid (s.mem (slot t i)) ≡ true
      → (g.lev (pte2pa (s.mem (slot t i))) ≡ l)
        × (g.pre (pte2pa (s.mem (slot t i))) ≡ g.pre t * 512 + i)
  pub free : (p : ℕ) → In p s.pages → (g.lev p ≡ 3) × (p % 4096 ≡ 0)
  pub distinct : Distinct s.pages

-- The entry for an address as the three levels of tables give it; 0 where a table is missing.
unfoldable pub value : ℕ → ℕ → ℕ → Memory → ℕ
value zero t va m = m (slot t (px 0 va))
value (suc l) t va m =
    if valid (m (slot t (px (suc l) va)))
    then value l (pte2pa (m (slot t (px (suc l) va)))) va m
    else 0

unfoldable pub entry : ℕ → ℕ → Vm → ℕ
unfolding value
entry root va s = value 2 root va s.mem

pub px-lt : (l va : ℕ) → px l va < 512
unfolding px
px-lt l va = omega arith

pub slot_inj :
    (t t' i i' : ℕ)
    → t % 4096 ≡ 0
    → t' % 4096 ≡ 0
    → i < 512
    → i' < 512
    → slot t i ≡ slot t' i'
    → (t ≡ t') × (i ≡ i')
slot_inj t t' i i' a a' h h' e = (omega arith, omega arith)

-- One more table `p` of level `l`, under the entry `i` of `t`.
abbrev pub plant : Tree → ℕ → ℕ → ℕ → ℕ → Tree
plant g t i l p = record {
  lev = λ b. if p == b then l else g.lev b;
  pre = λ b. if p == b then g.pre t * 512 + i else g.pre b;
}

module _ (root : ℕ) (g : Tree) (s : Vm) (tree : IsTree root g s) (p : ℕ) (ps : List ℕ)
    (fresh : s.pages ≡ p ∷ ps) (t i l : ℕ) (hi : i < 512) (at : g.lev t ≡ suc l) (hl : l < 2)
    (unused : valid (s.mem (slot t i)) ≡ false) where
  abbrev pub new_memory : Memory
  new_memory = write (clear_page s.mem p) (slot t i) (bit_or (pa2pte p) 1)

  p-free : (g.lev p ≡ 3) × (p % 4096 ≡ 0)
  p-free = tree.free p (subst (In p) (sym fresh) (inl refl))

  t-aligned : t % 4096 ≡ 0
  t-aligned = tree.aligned t (omega arith)

  t-ne-p : t ≢ p
  t-ne-p e = omega (arith, ap g.lev e, p-free.0)

  mem_self : new_memory (slot t i) ≡ bit_or (pa2pte p) 1
  mem_self = ground arith

  mem_clear : (j : ℕ) → j < 512 → new_memory (slot p j) ≡ 0
  mem_clear j h = ground (arith, t-aligned, p-free.1, t-ne-p)

  mem_kept :
      (t' j : ℕ)
      → g.lev t' < 3
      → j < 512
      → (slot t i ≢ slot t' j)
      → new_memory (slot t' j) ≡ s.mem (slot t' j)
  mem_kept t' j h hj n =
      let n' : t' ≢ p = λ e. omega (arith, ap g.lev e, p-free.0) in
      let q : t' % 4096 ≡ 0 = tree.aligned t' h in ground (arith, q, p-free.1, n', n)

  pub valid_kept :
      (b j : ℕ)
      → g.lev b < 3
      → j < 512
      → valid (s.mem (slot b j)) ≡ true
      → new_memory (slot b j) ≡ s.mem (slot b j)
  valid_kept b j h hj v = mem_kept b j h hj λ q. cc (ap (λ a. valid (s.mem a)) q, unused, v)

  pub named : pte2pa (new_memory (slot t i)) ≡ p
  named = rw mem_self (pte2pa-pa2pte p p-free.1)

  pub named_valid : valid (new_memory (slot t i)) ≡ true
  named_valid = rw mem_self (valid-bit_or (pa2pte p))

  value_new : (k va : ℕ) → value k p va new_memory ≡ 0
  unfolding value
  value_new zero va = mem_clear (px 0 va) (px-lt 0 va)
  value_new (suc k) va = rw (mem_clear (px (suc k) va) (px-lt (suc k) va)) refl

  -- The new table holds nothing yet, so that no address is mapped otherwise.
  pub value_kept :
      (k t' va : ℕ) → g.lev t' ≡ k → k < 3 → value k t' va new_memory ≡ value k t' va s.mem
  unfolding value
  value_kept zero t' va e h = mem_kept t' (px 0 va) (omega arith) (px-lt 0 va) λ q.
      let r =
        slot_inj t t' i (px 0 va) t-aligned (tree.aligned t' (omega arith)) hi (px-lt 0 va) q in
      omega (arith, ap g.lev r.0)
  value_kept (suc k) t' va e h = elim (ℕ_discrete (slot t i) (slot t' (px (suc k) va))) [
    | yes q ↦
        rw (← q, mem_self, valid-bit_or (pa2pte p), unused, pte2pa-pa2pte p p-free.1)
          (value_new k va)
    | no n ↦
        rw (mem_kept t' (px (suc k) va) (omega arith) (px-lt (suc k) va) n)
          (elim (Bool-cases (valid (s.mem (slot t' (px (suc k) va))))) [
            | inl v ↦ rw v (
                value_kept k (pte2pa (s.mem (slot t' (px (suc k) va)))) va
                  (tree.below t' (px (suc k) va) k (px-lt (suc k) va) e (omega arith) v).0
                  (omega arith))
            | inr v ↦ rw v refl
          ])
  ]

  abbrev pub after : Vm
  after = record s { mem = new_memory; pages = ps }

  pub lev_kept : (b : ℕ) → g.lev b < 3 → (plant g t i l p).lev b ≡ g.lev b
  lev_kept b h = let n : p ≢ b = λ e. omega (arith, ap g.lev e, p-free.0) in ground (arith, n)

  pub pre_kept : (b : ℕ) → g.lev b < 3 → (plant g t i l p).pre b ≡ g.pre b
  pre_kept b h = let n : p ≢ b = λ e. omega (arith, ap g.lev e, p-free.0) in ground (arith, n)

  below_old :
      (b j k : ℕ)
      → j < 512
      → g.lev b ≡ suc k
      → k < 2
      → valid (new_memory (slot b j)) ≡ true
      → ((plant g t i l p).lev (pte2pa (new_memory (slot b j))) ≡ k)
        × ((plant g t i l p).pre (pte2pa (new_memory (slot b j))) ≡ g.pre b * 512 + j)
  below_old b j k hj e hk v = elim (ℕ_discrete (slot t i) (slot b j)) [
    | yes q ↦
        let r = slot_inj t b i j t-aligned (tree.aligned b (omega arith)) hi hj q in
        rw (← q, mem_self, pte2pa-pa2pte p p-free.1)
          (ground (arith, ap g.lev r.0), ground (arith, ap g.pre r.0, r.1))
    | no n ↦
        let m = mem_kept b j (omega arith) hj n in
        let d = tree.below b j k hj e hk (subst (λ w. valid w ≡ true) m v) in
        rw m (
          lev_kept (pte2pa (s.mem (slot b j))) (omega (arith, d.0)) ∙ d.0,
          pre_kept (pte2pa (s.mem (slot b j))) (omega (arith, d.0)) ∙ d.1,
        )
  ]

  below_new : (b j k : ℕ) → p ≡ b → j < 512 → valid (new_memory (slot b j)) ≡ true → ⊥
  below_new b j k e hj v =
      ground (arith, subst (λ c. new_memory (slot c j) ≡ 0) e (mem_clear j hj), v)

  below_plant :
      (b j k : ℕ)
      → j < 512
      → (plant g t i l p).lev b ≡ suc k
      → k < 2
      → valid (new_memory (slot b j)) ≡ true
      → ((plant g t i l p).lev (pte2pa (new_memory (slot b j))) ≡ k)
        × ((plant g t i l p).pre (pte2pa (new_memory (slot b j)))
            ≡ (plant g t i l p).pre b * 512 + j)
  below_plant b j k hj e hk v = elim (ℕ_discrete p b) [
    | yes q ↦ absurd (below_new b j k q hj v)
    | no n ↦
        let lv : g.lev b ≡ suc k = ground (arith, n, e) in
        let d = below_old b j k hj lv hk v in
        (d.0, d.1 ∙ ap (λ (x : ℕ). x * 512 + j) (sym (pre_kept b (omega arith))))
  ]

  free_plant : (b : ℕ) → In b ps → ((plant g t i l p).lev b ≡ 3) × (b % 4096 ≡ 0)
  free_plant b m =
      let d : Distinct (p ∷ ps) = subst Distinct fresh tree.distinct in
      let f = tree.free b (subst (In b) (sym fresh) (inr m)) in
      let n : b ≢ p = ne_of_In b p ps m d.0 in (ground (arith, f.0, n), f.1)

  pub IsTree-plant : IsTree root (plant g t i l p) after
  IsTree-plant = record {
    root_lev = lev_kept root (omega (arith, tree.root_lev)) ∙ tree.root_lev;
    root_pre = pre_kept root (omega (arith, tree.root_lev)) ∙ tree.root_pre;
    aligned = λ b h. elim (ℕ_discrete p b) [
      | yes q ↦ subst (λ c. c % 4096 ≡ 0) q p-free.1
      | no n ↦ tree.aligned b (ground (arith, n, h))
    ];
    below = below_plant;
    free = free_plant;
    distinct = (subst Distinct fresh tree.distinct).1;
  }
