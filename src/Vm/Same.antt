-- ===== src/Vm/Same.antt =====
-- Which addresses share an entry: walk tells the pages apart.
use riscv_lab.Common.{
  ℕ, zero, suc, ◌/◌, ◌<◌, ◌≡◌, ◌↔◌, inl, inr, refl, sym, ap, ◌∙◌, subst, true, false, arith,
  Bool-cases, lt→leb,
}
use riscv_lab.Vm.{
  Vm, Pte, null, no_page, entry_at, px, pte2pa, valid, slot, next_table, walk_from, walk, max_va,
}
use riscv_lab.Vm.Tree.{Tree, IsTree, px-lt, slot_inj}
use riscv_lab.Vm.Walk.{Leads}
use riscv_lab.Vm.Leaf.{above, page-px, px_page, Leads-pre}

-- Without `alloc`, an entry that walk gives lies in the table that the tables lead to.
abbrev Reaches : ℕ → ℕ → ℕ → Vm → Pte × Vm → Type 0
Reaches l table va s (null, s') = Unit {0}
Reaches l table va s (no_page, s') = ⊥
Reaches l table va s (entry_at a, s') = (t : ℕ) × Leads l table va s.mem t × (a ≡ slot t (px 0 va))

module _ (l table va : ℕ) (s : Vm) where
  Reaches-under :
      (r : Pte × Vm)
      → valid (s.mem (slot table (px (suc l) va))) ≡ true
      → Reaches l (pte2pa (s.mem (slot table (px (suc l) va)))) va s r
      → Reaches (suc l) table va s r
  Reaches-under (null, s') v r = tt
  Reaches-under (no_page, s') v r = r
  Reaches-under (entry_at a, s') v (t, leads, at) = (t, (v, leads), at)

walk_from-Reaches : (l table va : ℕ) (s : Vm) → Reaches l table va s (walk_from l va false table s)
unfolding walk_from next_table
walk_from-Reaches zero table va s = (table, refl, refl)
walk_from-Reaches (suc l) table va s =
    let child = pte2pa (s.mem (slot table (px (suc l) va))) in
    elim (Bool-cases (valid (s.mem (slot table (px (suc l) va))))) [
      | inl v ↦
          let under =
            Reaches-under l table va s (walk_from l va false child s) v
              (walk_from-Reaches l child va s) in
          rw v under
      | inr u ↦ rw u tt
    ]

walk-Reaches : (root va : ℕ) (s : Vm) → va < max_va → Reaches 2 root va s (walk root va false s)
unfolding walk
walk-Reaches root va s h = rw (lt→leb max_va va h) (walk_from-Reaches 2 root va s)

-- the tables lead two addresses of one page to one table
Leads-same :
    (l table va vb t u : ℕ) (s : Vm)
    → l < 3
    → va / 4096 ≡ vb / 4096
    → Leads l table va s.mem t
    → Leads l table vb s.mem u
    → t ≡ u
Leads-same zero table va vb t u s h e p q = sym p ∙ q
Leads-same (suc l) table va vb t u s h e p q =
    Leads-same l (pte2pa (s.mem (slot table (px (suc l) va)))) va vb t u s (omega arith) e p.1 (
      subst (λ i. Leads l (pte2pa (s.mem (slot table i))) vb s.mem u)
        (sym (px_page (suc l) va vb h e)) q.1)

module _ (root va vb : ℕ) (g : Tree) (s : Vm) (tree : IsTree root g s) where
  place : (v t : ℕ) → v < max_va → Leads 2 root v s.mem t → (g.lev t ≡ 0) × (g.pre t ≡ above 0 v)
  unfolding above
  place v t h leads =
      Leads-pre root g s tree 2 root v t (omega arith) tree.root_lev (tree.root_pre ∙ omega arith)
        leads

  same_slot :
      (t u : ℕ)
      → va < max_va
      → vb < max_va
      → Leads 2 root va s.mem t
      → Leads 2 root vb s.mem u
      → slot t (px 0 va) ≡ slot u (px 0 vb)
      → va / 4096 ≡ vb / 4096
  same_slot t u ha hb p q e =
      let a = place va t ha p in
      let b = place vb u hb q in
      let i =
        slot_inj t u (px 0 va) (px 0 vb) (tree.aligned t (omega (arith, a.0)))
          (tree.aligned u (omega (arith, b.0))) (px-lt 0 va) (px-lt 0 vb) e in
      omega (arith, page-px va, page-px vb, a.1, b.1, ap g.pre i.0, i.1)

-- On a tree of tables, the entries that walk finds for two addresses below the top of the address
-- space, without `alloc`, are the same one exactly if the addresses are in the same page.
pub walk_iff :
    (root va vb a b : ℕ) (g : Tree) (s : Vm)
    → IsTree root g s
    → va < max_va
    → vb < max_va
    → walk root va false s ≡ (entry_at a, s)
    → walk root vb false s ≡ (entry_at b, s)
    → (a ≡ b) ↔ (va / 4096 ≡ vb / 4096)
walk_iff root va vb a b g s tree ha hb ea eb =
    let p = subst (Reaches 2 root va s) ea (walk-Reaches root va s ha) in
    let q = subst (Reaches 2 root vb s) eb (walk-Reaches root vb s hb) in
    (
      (λ e. same_slot root va vb g s tree p.0 q.0 ha hb p.1 q.1 (sym p.2 ∙ e ∙ q.2)),
      λ e.
          p.2
          ∙ ap (slot p.0) (px_page 0 va vb (omega arith) e)
          ∙ ap (λ t. slot t (px 0 vb)) (Leads-same 2 root va vb p.0 q.0 s (omega arith) e p.1 q.1)
          ∙ sym q.2,
    )
