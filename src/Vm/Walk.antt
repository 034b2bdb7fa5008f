-- ===== src/Vm/Walk.antt =====
-- walk maps nothing: with `alloc` it adds empty tables, without it it changes nothing.
use riscv_lab.Common.{
  ℕ, zero, suc, ◌<◌, ◌≡◌, inl, inr, refl, sym, ap, ◌∙◌, subst, true, false, List, [], ◌∷◌, arith,
  Bool-cases, lt→leb,
}
use riscv_lab.Vm.{
  Vm, Memory, Pte, null, no_page, entry_at, px, pte2pa, valid, slot, allocate, next_table, follow,
  walk_from, walk, max_va,
}
use riscv_lab.Vm.Tree.{
  Tree, IsTree, value, entry, px-lt, plant, IsTree-plant, value_kept, valid_kept, named,
  named_valid, lev_kept, pre_kept,
}

-- the entries lead from `table` to the table `t` of level 0
abbrev pub Leads : ℕ → ℕ → ℕ → Memory → ℕ → Type 0
Leads zero table va m t = table ≡ t
Leads (suc l) table va m t =
    (valid (m (slot table (px (suc l) va))) ≡ true)
    × Leads l (pte2pa (m (slot table (px (suc l) va)))) va m t

-- The entry lies in a table of level 0, and the tables lead to it.
abbrev pub Found : ℕ → ℕ → ℕ → Vm → Pte → Type 0
Found l table va s null = ⊥
Found l table va s no_page = s.pages ≡ []
Found l table va s (entry_at a) = (t : ℕ) × Leads l table va s.mem t × (a ≡ slot t (px 0 va))

-- What no table page that is added takes away.
pub record Grows (g : Tree) (s : Vm) (g' : Tree) (s' : Vm) : Type 0 where
  pub lev : (b : ℕ) → g.lev b < 3 → g'.lev b ≡ g.lev b
  pub pre : (b : ℕ) → g.lev b < 3 → g'.pre b ≡ g.pre b
  pub values : (k b va : ℕ) → g.lev b ≡ k → k < 3 → value k b va s'.mem ≡ value k b va s.mem
  pub valids :
      (b j : ℕ)
      → g.lev b < 3
      → j < 512
      → valid (s.mem (slot b j)) ≡ true
      → s'.mem (slot b j) ≡ s.mem (slot b j)
  pub lock : s'.locked ≡ s.locked

Grows-refl : (g : Tree) (s : Vm) → Grows g s g s
Grows-refl g s = record {
  lev = λ b h. refl;
  pre = λ b h. refl;
  values = λ k b va e h. refl;
  valids = λ b j h hj v. refl;
  lock = refl;
}

Grows-trans :
    (g g' g'' : Tree) (s s' s'' : Vm) → Grows g s g' s' → Grows g' s' g'' s'' → Grows g s g'' s''
Grows-trans g g' g'' s s' s'' a b = record {
  lev = λ c h. b.lev c (omega (arith, a.lev c h)) ∙ a.lev c h;
  pre = λ c h. b.pre c (omega (arith, a.lev c h)) ∙ a.pre c h;
  values = λ k c va e h. b.values k c va (a.lev c (omega arith) ∙ e) h ∙ a.values k c va e h;
  valids = λ c j h hj v.
      let q = a.valids c j h hj v in
      b.valids c j (omega (arith, a.lev c h)) hj (subst (λ w. valid w ≡ true) (sym q) v) ∙ q;
  lock = b.lock ∙ a.lock;
}

-- What a call of walk from a table of level `l` leaves, and what the entry that it gives is.
abbrev pub Walked : ℕ → ℕ → ℕ → ℕ → Tree → Vm → Pte × Vm → Type 0
Walked root l table va g s (o, s') =
    (g' : Tree) × IsTree root g' s' × Grows g s g' s' × Found l table va s' o

-- the entry names the child `c`, a table of level `l`
abbrev Entered : ℕ → ℕ → ℕ → ℕ → Tree → Vm → Pte × Vm → Type 0
Entered root l table i g s (null, s') = ⊥
Entered root l table i g s (no_page, s') =
    (g' : Tree) × IsTree root g' s' × Grows g s g' s' × (s'.pages ≡ [])
Entered root l table i g s (entry_at c, s') =
    (g' : Tree) × IsTree root g' s'
    × Grows g s g' s'
    × (g'.lev c ≡ l)
    × (valid (s'.mem (slot table i)) ≡ true)
    × (pte2pa (s'.mem (slot table i)) ≡ c)

module _ (root : ℕ) (l table i : ℕ) (hi : i < 512) (hl : l < 2) (g : Tree) (s : Vm)
    (tree : IsTree root g s) (at : g.lev table ≡ suc l) where
  allocate-Entered :
      (ps : List ℕ)
      → s.pages ≡ ps
      → valid (s.mem (slot table i)) ≡ false
      → Entered root l table i g s (allocate (slot table i) s ps)
  allocate-Entered [] e u = (g, tree, Grows-refl g s, e)
  allocate-Entered (p ∷ ps) e u = (
    plant g table i l p,
    IsTree-plant root g s tree p ps e table i l hi at hl u,
    record {
      lev = lev_kept root g s tree p ps e table i l hi at hl u;
      pre = pre_kept root g s tree p ps e table i l hi at hl u;
      values = value_kept root g s tree p ps e table i l hi at hl u;
      valids = valid_kept root g s tree p ps e table i l hi at hl u;
      lock = refl;
    },
    ground arith,
    named_valid root g s tree p ps e table i l hi at hl u,
    named root g s tree p ps e table i l hi at hl u,
  )

  next_table-Entered : Entered root l table i g s (next_table true (slot table i) s)
  unfolding next_table
  next_table-Entered = elim (Bool-cases (valid (s.mem (slot table i)))) [
    | inl v ↦ rw v (g, tree, Grows-refl g s, (tree.below table i l hi at hl v).0, v, refl)
    | inr u ↦ rw u (allocate-Entered s.pages refl u)
  ]

-- a found entry of the child is one of the table
Found-under :
    (l table va c : ℕ) (s s' : Vm) (o : Pte)
    → valid (s.mem (slot table (px (suc l) va))) ≡ true
    → pte2pa (s.mem (slot table (px (suc l) va))) ≡ c
    → s'.mem (slot table (px (suc l) va)) ≡ s.mem (slot table (px (suc l) va))
    → Found l c va s' o
    → Found (suc l) table va s' o
Found-under l table va c s s' null v e q f = f
Found-under l table va c s s' no_page v e q f = f
Found-under l table va c s s' (entry_at a) v e q (t, leads, at) =
    (t, (ap valid q ∙ v, subst (λ d. Leads l d va s'.mem t) (sym (ap pte2pa q ∙ e)) leads), at)

follow-Walked :
    (root l table va : ℕ) (g : Tree) (s : Vm) (f : ℕ → Vm → Pte × Vm)
    → g.lev table ≡ suc l
    → l < 2
    → ((c : ℕ) (g' : Tree) (s' : Vm)
        → IsTree root g' s'
        → g'.lev c ≡ l
        → Walked root l c va g' s' (f c s'))
    → (r : Pte × Vm) → Entered root l table (px (suc l) va) g s r
    → Walked root (suc l) table va g s (follow f r)
follow-Walked root l table va g s f at hl rest (null, s') w = absurd w
follow-Walked root l table va g s f at hl rest (no_page, s') (g', tree, grows, out) =
    (g', tree, grows, out)
follow-Walked root l table va g s f at hl rest (entry_at c, s') (g', tree, grows, lc, v, e) =
    let w = rest c g' s' tree lc in
    (
      w.0,
      w.1,
      Grows-trans g g' w.0 s s' (f c s').1 grows w.2,
      Found-under l table va c s' (f c s').1 (f c s').0 v e
          (w.2.valids table (px (suc l) va) (omega (arith, grows.lev table (omega arith)))
            (px-lt (suc l) va) v)
          w.3,
    )

walk_from-Walked :
    (root l table va : ℕ) (g : Tree) (s : Vm)
    → IsTree root g s
    → g.lev table ≡ l
    → l < 3
    → Walked root l table va g s (walk_from l va true table s)
unfolding walk_from
walk_from-Walked root zero table va g s tree at hl = (g, tree, Grows-refl g s, (table, refl, refl))
walk_from-Walked root (suc l) table va g s tree at hl =
    follow-Walked root l table va g s (walk_from l va true) at (omega arith)
      (λ c g' s' t e. walk_from-Walked root l c va g' s' t e (omega arith))
      (next_table true (slot table (px (suc l) va)) s)
      (next_table-Entered root l table (px (suc l) va) (px-lt (suc l) va) (omega arith) g s tree at)

-- Without `alloc` the state stays, and the entry is the one that the tables give.
abbrev pub Looked : ℕ → Vm → Pte × Vm → Type 0
Looked v s (null, s') = (s' ≡ s) × (v ≡ 0)
Looked v s (no_page, s') = ⊥
Looked v s (entry_at a, s') = (s' ≡ s) × (v ≡ s.mem a)

module _ (l table va : ℕ) (s : Vm) where
  value-valid :
      valid (s.mem (slot table (px (suc l) va))) ≡ true
      → value (suc l) table va s.mem
        ≡ value l (pte2pa (s.mem (slot table (px (suc l) va)))) va s.mem
  unfolding value
  value-valid v = rw v refl

  value-invalid :
      valid (s.mem (slot table (px (suc l) va))) ≡ false → value (suc l) table va s.mem ≡ 0
  unfolding value
  value-invalid u = rw u refl

walk_from-Looked :
    (l table va : ℕ) (s : Vm) → Looked (value l table va s.mem) s (walk_from l va false table s)
unfolding walk_from next_table value
walk_from-Looked zero table va s = (refl, refl)
walk_from-Looked (suc l) table va s =
    elim (Bool-cases (valid (s.mem (slot table (px (suc l) va))))) [
      | inl v ↦
          rw (value-valid l table va s v, v)
            (walk_from-Looked l (pte2pa (s.mem (slot table (px (suc l) va)))) va s)
      | inr u ↦ rw (value-invalid l table va s u, u) (refl, refl)
    ]

-- Below the top of the address space, walk without `alloc` changes nothing, and the entry whose
-- address it returns holds what the tables give for the address; it returns NULL only where that
-- is 0.
pub walk-Looked :
    (root va : ℕ) (s : Vm) → va < max_va → Looked (entry root va s) s (walk root va false s)
unfolding walk entry
walk-Looked root va s h = rw (lt→leb max_va va h) (walk_from-Looked 2 root va s)

-- walk with `alloc` below the top of the address space
pub walk-Walked :
    (root va : ℕ) (g : Tree) (s : Vm)
    → va < max_va
    → IsTree root g s
    → Walked root 2 root va g s (walk root va true s)
unfolding walk
walk-Walked root va g s h tree =
    rw (lt→leb max_va va h) (walk_from-Walked root 2 root va g s tree tree.root_lev (omega arith))
