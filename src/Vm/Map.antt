-- ===== src/Vm/Map.antt =====
-- mappages as an update of a map from pages to entries.
use Prim.Native.Nat.{bit_or}
use riscv_lab.Common.{
  ℕ, suc, ◌+◌, ◌-◌, ◌*◌, ◌/◌, ◌≤◌, ◌<◌, ◌≡◌, ◌≢◌, ◌⊎◌, inl, inr, sym, ap, ◌∙◌, subst, Bool, true,
  false, [], arith, Bool-cases, ℕ_discrete,
}
use riscv_lab.Vm.{
  Vm, Outcome, Pte, null, no_page, entry_at, mapped, failed, faulted, panicked, unfinished, max_va,
  px, pa2pte, valid, slot, write, set_entry,
}
use riscv_lab.Vm.Tree.{Tree, IsTree, entry}
use riscv_lab.Vm.Walk.{Walked, Grows, Leads}
use riscv_lab.Vm.Leaf.{
  above, Leads-pre, Leads-value, value_page, IsTree-leaf, leaf_other, leaf_self,
}

abbrev pub leaf_pte : ℕ → ℕ → ℕ
leaf_pte pa perm = bit_or (bit_or (pa2pte pa) perm) 1

abbrev pub IsTable : ℕ → Vm → Type 0
IsTable root s = (g : Tree) × IsTree root g s

-- The `k` pages from `va` on, unmapped in `s`, are mapped to those from `pa` on in `s'`; no other
-- page is mapped otherwise than before.
pub record Maps (root k va pa perm : ℕ) (s s' : Vm) : Type 0 where
  pub unused :
      (j b : ℕ) → j < k → b < max_va → b / 4096 ≡ va / 4096 + j → valid (entry root b s) ≡ false
  pub inside :
      (j b : ℕ)
      → j < k
      → b < max_va
      → b / 4096 ≡ va / 4096 + j
      → entry root b s' ≡ leaf_pte (pa + 4096 * j) perm
  pub outside :
      (b : ℕ)
      → b < max_va
      → (b / 4096 < va / 4096) ⊎ (va / 4096 + k ≤ b / 4096)
      → entry root b s' ≡ entry root b s

Maps-zero :
    (root va pa perm : ℕ) (s s' : Vm)
    → ((b : ℕ) → b < max_va → entry root b s' ≡ entry root b s)
    → Maps root 0 va pa perm s s'
Maps-zero root va pa perm s s' same = record {
  unused = λ j b h hb e. absurd (omega arith);
  inside = λ j b h hb e. absurd (omega arith);
  outside = λ b hb o. same b hb;
}

-- one page, then `k` more
Maps-suc :
    (root k va pa perm : ℕ) (s s' s'' : Vm)
    → Maps root 1 va pa perm s s'
    → Maps root k (va + 4096) (pa + 4096) perm s' s''
    → Maps root (suc k) va pa perm s s''
Maps-suc root k va pa perm s s' s'' first rest = record {
  unused = λ j b h hb e. elim (ℕ_discrete j 0) [
    | yes z ↦ first.unused 0 b (omega arith) hb (omega arith)
    | no n ↦
        subst (λ w. valid w ≡ false) (first.outside b hb (inr (omega arith)))
          (rest.unused (j - 1) b (omega arith) hb (omega arith))
  ];
  inside = λ j b h hb e. elim (ℕ_discrete j 0) [
    | yes z ↦
        rest.outside b hb (inl (omega arith))
        ∙ first.inside 0 b (omega arith) hb (omega arith)
        ∙ ap (λ (x : ℕ). leaf_pte x perm) (omega arith)
    | no n ↦
        rest.inside (j - 1) b (omega arith) hb (omega arith)
        ∙ ap (λ (x : ℕ). leaf_pte x perm) (omega arith)
  ];
  outside = λ b hb o.
      rest.outside b hb (elim o [ inl l ↦ inl (omega arith) | inr r ↦ inr (omega arith) ])
      ∙ first.outside b hb (elim o [ inl l ↦ inl l | inr r ↦ inr (omega arith) ]);
}

-- Why the loop stops after `k` of `n` pages.
abbrev pub Stops : ℕ → ℕ → ℕ → ℕ → Vm → Outcome → Vm → Type 0
Stops root n k va s mapped s' = k ≡ n
Stops root n k va s failed s' = ⊥
Stops root n k va s faulted s' = (k < n) × (s'.pages ≡ [])
Stops root n k va s panicked s' = (k < n) × (valid (entry root (va + 4096 * k) s) ≡ true)
Stops root n k va s unfinished s' = ⊥

abbrev pub MapsSome : ℕ → ℕ → ℕ → ℕ → ℕ → Vm → Outcome × Vm → Type 0
MapsSome root n va pa perm s (o, s') =
    (k : ℕ) × Maps root k va pa perm s s'
    × IsTable root s'
    × Stops root n k va s o s'
    × (s'.locked ≡ s.locked)

above_top : (va : ℕ) → va < max_va → 0 ≡ above 2 va
unfolding above
above_top va h = omega arith

entry_before :
    (root : ℕ) (g : Tree) (s : Vm) (g' : Tree) (s' : Vm)
    → IsTree root g s
    → Grows g s g' s'
    → (b : ℕ) → entry root b s' ≡ entry root b s
unfolding entry
entry_before root g s g' s' tree grows b = grows.values 2 root b tree.root_lev (omega arith)

module _ (root va pa perm : ℕ) (hva : va < max_va) (g : Tree) (s : Vm) (tree : IsTree root g s)
    (g' : Tree) (s' : Vm) (tree' : IsTree root g' s') (grows : Grows g s g' s') (t : ℕ)
    (leads : Leads 2 root va s'.mem t) where
  leaf_place : (g'.lev t ≡ 0) × (g'.pre t ≡ above 0 va)
  leaf_place =
      Leads-pre root g' s' tree' 2 root va t (omega arith) tree'.root_lev
        (tree'.root_pre ∙ above_top va hva) leads

  abbrev with_leaf : Vm
  with_leaf = record s' { mem = write s'.mem (slot t (px 0 va)) (leaf_pte pa perm) }

  entry_leaf : (b : ℕ) → b / 4096 ≡ va / 4096 → entry root b s ≡ s'.mem (slot t (px 0 va))
  unfolding entry
  entry_leaf b e =
      sym (entry_before root g s g' s' tree grows b)
      ∙ value_page 2 root b va s'.mem (omega arith) e
      ∙ Leads-value 2 root va t s'.mem leads

  entry_written : (b : ℕ) → va / 4096 ≡ b / 4096 → entry root b with_leaf ≡ leaf_pte pa perm
  unfolding entry
  entry_written b e =
      leaf_self root g' s' tree' t va (leaf_pte pa perm) leaf_place.0 leaf_place.1 2 root b
        (omega arith) tree'.root_lev leads e

  entry_other :
      (b : ℕ) → b < max_va → va / 4096 ≢ b / 4096 → entry root b with_leaf ≡ entry root b s
  unfolding entry
  entry_other b hb n =
      leaf_other root g' s' tree' t va (leaf_pte pa perm) leaf_place.0 leaf_place.1 2 root b
        (omega arith) tree'.root_lev (tree'.root_pre ∙ above_top b hb) n
      ∙ entry_before root g s g' s' tree grows b

  Maps-leaf : valid (s'.mem (slot t (px 0 va))) ≡ false → Maps root 1 va pa perm s with_leaf
  Maps-leaf u = record {
    unused = λ j b h hb e. rw (entry_leaf b (omega arith)) u;
    inside =
        λ j b h hb e. entry_written b (omega arith) ∙ ap (λ (x : ℕ). leaf_pte x perm) (omega arith);
    outside =
        λ b hb o. entry_other b hb (λ q. elim o [ inl l ↦ omega arith | inr r ↦ omega arith ]);
  }

  IsTable-leaf : IsTable root with_leaf
  IsTable-leaf =
      (g', IsTree-leaf root g' s' tree' t va (leaf_pte pa perm) leaf_place.0 leaf_place.1)

-- one page, then what the rest of the loop maps
one_then :
    (root n va pa perm : ℕ) (s s' : Vm) (r : Outcome × Vm)
    → va + 4096 * suc n ≤ max_va
    → Maps root 1 va pa perm s s'
    → s'.locked ≡ s.locked
    → MapsSome root n (va + 4096) (pa + 4096) perm s' r
    → MapsSome root (suc n) va pa perm s r
one_then root n va pa perm s s' (mapped, s'') h one l (k, m, t, e, l') =
    (suc k, Maps-suc root k va pa perm s s' s'' one m, t, ap suc e, l' ∙ l)
one_then root n va pa perm s s' (failed, s'') h one l (k, m, t, e, l') = absurd e
one_then root n va pa perm s s' (faulted, s'') h one l (k, m, t, e, l') =
    (suc k, Maps-suc root k va pa perm s s' s'' one m, t, (omega arith, e.1), l' ∙ l)
one_then root n va pa perm s s' (panicked, s'') h one l (k, m, t, e, l') = (
  suc k,
  Maps-suc root k va pa perm s s' s'' one m,
  t,
  (
    omega arith,
    subst (λ b. valid (entry root b s) ≡ true) (omega arith)
        (subst (λ w. valid w ≡ true)
          (one.outside (va + 4096 + 4096 * k) (omega arith) (inr (omega arith))) e.1),
  ),
  l' ∙ l,
)
one_then root n va pa perm s s' (unfinished, s'') h one l (k, m, t, e, l') = absurd e

Maps-none :
    (root va pa perm : ℕ) (g : Tree) (s : Vm) (g' : Tree) (s' : Vm)
    → IsTree root g s
    → Grows g s g' s'
    → Maps root 0 va pa perm s s'
Maps-none root va pa perm g s g' s' tree grows =
    Maps-zero root va pa perm s s' (λ b h. entry_before root g s g' s' tree grows b)

pub set_entry-MapsSome :
    (root n va pa perm : ℕ) (g : Tree) (s : Vm) (is_last : Bool) (rest : Vm → Outcome × Vm)
    → va + 4096 * suc n ≤ max_va
    → IsTree root g s
    → (is_last ≡ true) × (n ≡ 0)
      ⊎ (is_last ≡ false)
        × ((s' : Vm) → IsTable root s' → MapsSome root n (va + 4096) (pa + 4096) perm s' (rest s'))
    → (r : Pte × Vm) → Walked root 2 root va g s r
    → MapsSome root (suc n) va pa perm s (set_entry pa perm is_last rest r)
set_entry-MapsSome root n va pa perm g s is_last rest h tree more (null, s')
      (g', tree', grows, out) =
    absurd out
set_entry-MapsSome root n va pa perm g s is_last rest h tree more (no_page, s')
      (g', tree', grows, out) =
    (0, Maps-none root va pa perm g s g' s' tree grows, (g', tree'), (omega arith, out), grows.lock)
set_entry-MapsSome root n va pa perm g s is_last rest h tree more (entry_at a, s')
      (g', tree', grows, (t, leads, at)) =
    let put = with_leaf root va pa perm (omega arith) g s tree g' s' tree' grows t leads in
    let i = IsTable-leaf root va pa perm (omega arith) g s tree g' s' tree' grows t leads in
    let before = entry_leaf root va pa perm (omega arith) g s tree g' s' tree' grows t leads in
    let maps = Maps-leaf root va pa perm (omega arith) g s tree g' s' tree' grows t leads in
    rw at (elim (Bool-cases (valid (s'.mem (slot t (px 0 va))))) [
      | inl v ↦ rw v (
        0,
        Maps-none root va pa perm g s g' s' tree grows,
        (g', tree'),
        (omega arith, ap valid (before (va + 4096 * 0) (omega arith)) ∙ v),
        grows.lock,
      )
      | inr u ↦ elim more [
        | inl (l, z) ↦ rw (u, l) (1, maps u, i, omega arith, grows.lock)
        | inr (l, next) ↦
            rw (u, l)
              (one_then root n va pa perm s put (rest put) h (maps u) grows.lock (next put i))
      ]
    ])
