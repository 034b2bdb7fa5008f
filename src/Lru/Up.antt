-- ===== src/Lru/Up.antt =====
-- lru2_up, in each of its cases.
use riscv_lab.Common.{
  ℕ, ◌≡◌, inl, inr, List, [], ◌∷◌, ◌++◌, arith, NotIn, In-skip, In-snoc, In-middle, ne_of_In,
}
use riscv_lab.Lru.{Lru, lru2_up, to_tail, unlink, bump}
use riscv_lab.Lru.Inv.{
  IsLru, Becomes, TwoRings-swap, TwoRings-del, TwoRings-add_tail, outside_own, outside_other,
}

module _ (s : Lru) (n : ℕ) where
  -- lru2_up on an active node moves it to the end of the active list.
  pub lru2_up_active :
      (xs ys inas : List ℕ)
      → IsLru s (xs ++ n ∷ ys) inas
      → Becomes (lru2_up n s) ((xs ++ ys) ++ n ∷ []) inas
  unfolding lru2_up
  lru2_up_active xs ys inas v =
      let e : s.access n ≡ 2 = v.twice n (In-middle xs n ys) in
      let t = TwoRings-del s.links s.act n s.ina xs ys inas v.rings in
      (
        to_tail n s.act (unlink n s),
        ground arith,
        record {
          rings =
              TwoRings-add_tail _ s.act n s.ina (xs ++ ys) inas t
                (outside_own s.links s.act n s.ina xs ys inas v.rings)
                (outside_other s.links s.act n s.ina xs ys inas v.rings);
          twice = λ a i. elim (In-snoc a (xs ++ ys) n i) [
            | inl j ↦ v.twice a (In-skip a xs n ys j)
            | inr q ↦ rw q e
          ];
          once = v.once;
        },
      )

  -- lru2_up on an inactive node moves it to the end of the active list.
  pub lru2_up_inactive :
      (acts xs ys : List ℕ)
      → IsLru s acts (xs ++ n ∷ ys)
      → Becomes (lru2_up n s) (acts ++ n ∷ []) (xs ++ ys)
  unfolding lru2_up
  lru2_up_inactive acts xs ys v =
      let e : s.access n ≡ 1 = v.once n (In-middle xs n ys) in
      let w = TwoRings-swap s.links s.act acts s.ina (xs ++ n ∷ ys) v.rings in
      let t = TwoRings-del s.links s.ina n s.act xs ys acts w in
      let t' = TwoRings-swap _ s.ina (xs ++ ys) s.act acts t in
      let out = outside_own s.links s.ina n s.act xs ys acts w in
      let off = outside_other s.links s.ina n s.act xs ys acts w in
      (
        to_tail n s.act (unlink n (bump n s)),
        ground arith,
        record {
          rings = TwoRings-add_tail _ s.act n s.ina acts (xs ++ ys) t' off out;
          twice = λ a i. elim (In-snoc a acts n i) [
            | inl j ↦ ground (arith, v.twice a j)
            | inr q ↦ rw q (ground arith)
          ];
          once = λ a i.
              ground (arith, v.once a (In-skip a xs n ys i), ne_of_In a n (xs ++ ys) i out.1);
        },
      )

  -- lru2_up on a node that is in neither list and was never accessed puts it at the end of the
  -- inactive list.
  pub lru2_up_new :
      (acts inas : List ℕ)
      → IsLru s acts inas
      → s.access n ≡ 0
      → NotIn n (s.act ∷ acts)
      → NotIn n (s.ina ∷ inas)
      → Becomes (lru2_up n s) acts (inas ++ n ∷ [])
  unfolding lru2_up
  lru2_up_new acts inas v e out_act out_ina =
      let w = TwoRings-swap s.links s.act acts s.ina inas v.rings in
      (
        to_tail n s.ina (bump n s),
        ground arith,
        record {
          rings =
              TwoRings-swap _ s.ina (inas ++ n ∷ []) s.act acts
                (TwoRings-add_tail s.links s.ina n s.act inas acts w out_ina out_act);
          twice = λ a i. ground (arith, v.twice a i, ne_of_In a n acts i out_act.1);
          once = λ a i. elim (In-snoc a inas n i) [
            | inl j ↦ ground (arith, v.once a j, ne_of_In a n inas j out_ina.1)
            | inr q ↦ rw q (ground arith)
          ];
        },
      )
