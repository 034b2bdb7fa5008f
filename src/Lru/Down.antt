-- ===== src/Lru/Down.antt =====
-- lru2_down, in each of its cases.
use riscv_lab.Common.{
  ◌<◌, ℕ, ◌≡◌, inl, inr, some, none, List, [], ◌∷◌, ◌++◌, arith, In-skip, In-snoc, In-middle,
  ne_of_In,
}
use riscv_lab.Lru.{Lru, lru2_up, lru2_down, to_tail, unlink, drop_one}
use riscv_lab.Lru.Inv.{
  IsLru, Becomes, TwoRings-swap, TwoRings-del, TwoRings-add_tail, outside_own, outside_other,
}

module _ (s : Lru) (n : ℕ) where
  -- lru2_down on an active node moves it to the end of the inactive list.
  pub lru2_down_active :
      (xs ys inas : List ℕ)
      → IsLru s (xs ++ n ∷ ys) inas
      → Becomes (lru2_down n s) (xs ++ ys) (inas ++ n ∷ [])
  unfolding lru2_down
  lru2_down_active xs ys inas v =
      let e : s.access n ≡ 2 = v.twice n (In-middle xs n ys) in
      let t = TwoRings-del s.links s.act n s.ina xs ys inas v.rings in
      let t' = TwoRings-swap _ s.act (xs ++ ys) s.ina inas t in
      let out = outside_own s.links s.act n s.ina xs ys inas v.rings in
      let off = outside_other s.links s.act n s.ina xs ys inas v.rings in
      (
        to_tail n s.ina (unlink n (drop_one n s)),
        ground arith,
        record {
          rings =
              TwoRings-swap _ s.ina (inas ++ n ∷ []) s.act (xs ++ ys)
                (TwoRings-add_tail _ s.ina n s.act inas (xs ++ ys) t' off out);
          twice = λ a i.
              ground (arith, v.twice a (In-skip a xs n ys i), ne_of_In a n (xs ++ ys) i out.1);
          once = λ a i. elim (In-snoc a inas n i) [
            | inl j ↦ ground (arith, v.once a j, ne_of_In a n inas j off.1)
            | inr q ↦ rw q (ground arith)
          ];
        },
      )

  -- lru2_down on an inactive node takes it off the lists, and its access count is 0 again.
  pub lru2_down_inactive :
      (acts xs ys : List ℕ)
      → IsLru s acts (xs ++ n ∷ ys)
      → (t : Lru) × (lru2_down n s ≡ some t) × IsLru t acts (xs ++ ys) × (t.access n ≡ 0)
  unfolding lru2_down
  lru2_down_inactive acts xs ys v =
      let e : s.access n ≡ 1 = v.once n (In-middle xs n ys) in
      let w = TwoRings-swap s.links s.act acts s.ina (xs ++ n ∷ ys) v.rings in
      let t = TwoRings-del s.links s.ina n s.act xs ys acts w in
      let out = outside_own s.links s.ina n s.act xs ys acts w in
      let off = outside_other s.links s.ina n s.act xs ys acts w in
      (
        unlink n (drop_one n s),
        ground arith,
        record {
          rings = TwoRings-swap _ s.ina (xs ++ ys) s.act acts t;
          twice = λ a i. ground (arith, v.twice a i, ne_of_In a n acts i off.1);
          once = λ a i.
              ground (arith, v.once a (In-skip a xs n ys i), ne_of_In a n (xs ++ ys) i out.1);
        },
        ground arith,
      )

  -- Both operations panic on an access count that they do not know, and lru2_down on a node that is
  -- in no list.
  pub lru2_panics : 2 < s.access n → (lru2_up n s ≡ none) × (lru2_down n s ≡ none)
  unfolding lru2_up lru2_down
  lru2_panics h = (ground arith, ground arith)
