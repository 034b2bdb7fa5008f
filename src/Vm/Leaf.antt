-- ===== src/Vm/Leaf.antt =====
-- Writing the entry that walk gives changes what one page is mapped to, and nothing else.
use riscv_lab.Common.{
  ℕ, zero, suc, ◌+◌, ◌*◌, ◌/◌, ◌^◌, ◌<◌, ◌≡◌, ◌≢◌, refl, sym, ap, ◌∙◌, subst, true, arith,
  Bool-cases, inl, inr, if◌then◌else◌, ne→==, eq→==,
}
use riscv_lab.Vm.{Vm, Memory, px, pte2pa, valid, slot, write}
use riscv_lab.Vm.Tree.{Tree, IsTree, value, px-lt, slot_inj}
use riscv_lab.Vm.Walk.{Leads}

-- the bits of an address above those of a level
unfoldable pub above : ℕ → ℕ → ℕ
above l va = va / 2 ^ (21 + 9 * l)

pub above-px : (l va : ℕ) → l < 2 → above (suc l) va * 512 + px (suc l) va ≡ above l va
unfolding above px
above-px zero va h = omega arith
above-px (suc zero) va h = omega arith
above-px (suc (suc l)) va h = absurd (omega arith)

pub page-px : (va : ℕ) → va / 4096 ≡ above 0 va * 512 + px 0 va
unfolding above px
page-px va = omega arith

pub Leads-value :
    (l table va t : ℕ) (m : Memory)
    → Leads l table va m t
    → value l table va m ≡ m (slot t (px 0 va))
unfolding value
Leads-value zero table va t m h = ap (λ b. m (slot b (px 0 va))) h
Leads-value (suc l) table va t m h =
    rw h.0 (Leads-value l (pte2pa (m (slot table (px (suc l) va)))) va t m h.1)

pub px_page : (l va va' : ℕ) → l < 3 → va / 4096 ≡ va' / 4096 → px l va ≡ px l va'
unfolding px
px_page zero va va' h e = omega arith
px_page (suc zero) va va' h e = omega arith
px_page (suc (suc zero)) va va' h e = omega arith
px_page (suc (suc (suc l))) va va' h e = absurd (omega arith)

-- two addresses of one page have one entry
pub value_page :
    (l table va va' : ℕ) (m : Memory)
    → l < 3
    → va / 4096 ≡ va' / 4096
    → value l table va m ≡ value l table va' m
unfolding value
value_page zero table va va' m h e = ap (λ i. m (slot table i)) (px_page 0 va va' h e)
value_page (suc l) table va va' m h e = rw (px_page (suc l) va va' h e) (
    ap (λ w. if valid (m (slot table (px (suc l) va'))) then w else 0)
      (value_page l (pte2pa (m (slot table (px (suc l) va')))) va va' m (omega arith) e))

module _ (root : ℕ) (g : Tree) (s : Vm) (tree : IsTree root g s) where
  pub Leads-pre :
      (l table va t : ℕ)
      → l < 3
      → g.lev table ≡ l
      → g.pre table ≡ above l va
      → Leads l table va s.mem t
      → (g.lev t ≡ 0) × (g.pre t ≡ above 0 va)
  Leads-pre zero table va t hl e q h = (ap g.lev (sym h) ∙ e, ap g.pre (sym h) ∙ q)
  Leads-pre (suc l) table va t hl e q h =
      let d = tree.below table (px (suc l) va) l (px-lt (suc l) va) e (omega arith) h.0 in
      Leads-pre l (pte2pa (s.mem (slot table (px (suc l) va)))) va t (omega arith) d.0
        (d.1 ∙ ap (λ (x : ℕ). x * 512 + px (suc l) va) q ∙ above-px l va (omega arith)) h.1

  module _ (t va v : ℕ) (leaf : g.lev t ≡ 0) (at : g.pre t ≡ above 0 va) where
    upper_kept :
        (b j : ℕ)
        → j < 512
        → 0 < g.lev b
        → g.lev b < 3
        → write s.mem (slot t (px 0 va)) v (slot b j) ≡ s.mem (slot b j)
    upper_kept b j hj h hb =
        rw
          (ne→== (slot t (px 0 va)) (slot b j) λ q. omega (
            arith,
            ap g.lev
                (slot_inj t b (px 0 va) j (tree.aligned t (omega arith)) (tree.aligned b hb)
                  (px-lt 0 va) hj q).0,
          ))
          refl

    pub IsTree-leaf : IsTree root g (record s { mem = write s.mem (slot t (px 0 va)) v })
    IsTree-leaf = record {
      root_lev = tree.root_lev;
      root_pre = tree.root_pre;
      aligned = tree.aligned;
      below = λ b i l hi e hl w.
          let q = upper_kept b i hi (omega arith) (omega arith) in
          rw q (tree.below b i l hi e hl (subst (λ x. valid x ≡ true) q w));
      free = tree.free;
      distinct = tree.distinct;
    }

    -- another page keeps its entry
    pub leaf_other :
        (k b va' : ℕ)
        → k < 3
        → g.lev b ≡ k
        → g.pre b ≡ above k va'
        → va / 4096 ≢ va' / 4096
        → value k b va' (write s.mem (slot t (px 0 va)) v) ≡ value k b va' s.mem
    unfolding value
    leaf_other zero b va' hk e q n =
        rw
          (ne→== (slot t (px 0 va)) (slot b (px 0 va')) λ w.
            let r =
              slot_inj t b (px 0 va) (px 0 va') (tree.aligned t (omega arith))
                (tree.aligned b (omega arith)) (px-lt 0 va) (px-lt 0 va') w in
            n (omega (arith, page-px va, page-px va', ap g.pre r.0, r.1)))
          refl
    leaf_other (suc k) b va' hk e q n =
        rw (upper_kept b (px (suc k) va') (px-lt (suc k) va') (omega arith) (omega arith))
          (elim (Bool-cases (valid (s.mem (slot b (px (suc k) va'))))) [
            | inr u ↦ rw u refl
            | inl w ↦
                let d = tree.below b (px (suc k) va') k (px-lt (suc k) va') e (omega arith) w in
                rw w (
                  leaf_other k (pte2pa (s.mem (slot b (px (suc k) va')))) va' (omega arith) d.0
                    (d.1
                      ∙ ap (λ (x : ℕ). x * 512 + px (suc k) va') q
                      ∙ above-px k va' (omega arith))
                    n)
          ])

    leaf-Leads :
        (l table : ℕ)
        → l < 3
        → g.lev table ≡ l
        → Leads l table va s.mem t
        → Leads l table va (write s.mem (slot t (px 0 va)) v) t
    leaf-Leads zero table hl e h = h
    leaf-Leads (suc l) table hl e h =
        let d = tree.below table (px (suc l) va) l (px-lt (suc l) va) e (omega arith) h.0 in
        rw (upper_kept table (px (suc l) va) (px-lt (suc l) va) (omega arith) (omega arith))
          (h.0, leaf-Leads l (pte2pa (s.mem (slot table (px (suc l) va)))) (omega arith) d.0 h.1)

    -- the page has the entry that is written
    pub leaf_self :
        (l table va' : ℕ)
        → l < 3
        → g.lev table ≡ l
        → Leads l table va s.mem t
        → va / 4096 ≡ va' / 4096
        → value l table va' (write s.mem (slot t (px 0 va)) v) ≡ v
    leaf_self l table va' hl e h q =
        value_page l table va' va (write s.mem (slot t (px 0 va)) v) hl (sym q)
        ∙ Leads-value l table va t (write s.mem (slot t (px 0 va)) v) (leaf-Leads l table hl e h)
        ∙ rw (eq→== (slot t (px 0 va)) (slot t (px 0 va)) refl) refl
