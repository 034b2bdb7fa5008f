-- ===== src/Hash/Inv.antt =====
-- What adding to a hash table and deleting from it make of its buckets.
use riscv_lab.Common.{
  ℕ, ◌<◌, ◌≡◌, sym, ◌∙◌, ap, subst, some, List, [], ◌∷◌, ◌++◌, In, In-skip, In-snoc, inl, inr,
}
use native.Mathlib.Nat.{mod-lt}
use riscv_lab.Dlist.Ring.{list_add_head-IsRing}
use riscv_lab.Dlist.Family.{
  put_list, Stray, In-put_list, Family-add_head, Family-add_tail, Family-del,
}
use riscv_lab.Hash.{HashTable, hash, hash_add_head, hash_add_tail, hash_find, hash_del_node}
use riscv_lab.Hash.Find.{IsTable, find_from-first}

module _ (key_of : ℕ → ℕ) (t : HashTable) (q : ℕ → List ℕ) (v : IsTable key_of t q) where
  -- An entry that is in no bucket goes to the front of the bucket of its key.
  pub hash_add_head-IsTable :
      (e : ℕ)
      → Stray t.size t.heads q e
      → IsTable key_of
          (hash_add_head (key_of e) e t)
          (put_list q (hash t (key_of e)) (e ∷ q (hash t (key_of e))))
  unfolding hash_add_head
  hash_add_head-IsTable e s =
      let k : ℕ = hash t (key_of e) in
      record {
        some_size = v.some_size;
        buckets =
            Family-add_head t.size t.links t.heads q v.buckets k e (mod-lt (key_of e) v.some_size)
              s;
        placed = λ c hc x i. elim (In-put_list q k (e ∷ q k) c x i) [
          | inl (p, inl p') ↦ ap (λ y. hash t (key_of y)) p' ∙ sym p
          | inl (p, inr j) ↦ v.placed c hc x (subst (λ d. In x (q d)) (sym p) j)
          | inr (_, j) ↦ v.placed c hc x j
        ];
      }

  -- An entry that is in no bucket goes to the end of the bucket of its key.
  pub hash_add_tail-IsTable :
      (e : ℕ)
      → Stray t.size t.heads q e
      → IsTable key_of
          (hash_add_tail (key_of e) e t)
          (put_list q (hash t (key_of e)) (q (hash t (key_of e)) ++ e ∷ []))
  unfolding hash_add_tail
  hash_add_tail-IsTable e s =
      let k : ℕ = hash t (key_of e) in
      record {
        some_size = v.some_size;
        buckets =
            Family-add_tail t.size t.links t.heads q v.buckets k e (mod-lt (key_of e) v.some_size)
              s;
        placed = λ c hc x i. elim (In-put_list q k (q k ++ e ∷ []) c x i) [
          | inl (p, j) ↦ elim (In-snoc x (q k) e j) [
            | inl old ↦ v.placed c hc x (subst (λ d. In x (q d)) (sym p) old)
            | inr p' ↦ ap (λ y. hash t (key_of y)) p' ∙ sym p
          ]
          | inr (_, j) ↦ v.placed c hc x j
        ];
      }

  -- An entry leaves its bucket, whichever it is, and the other entries stay.
  pub hash_del_node-IsTable :
      (c e : ℕ) (xs ys : List ℕ)
      → c < t.size
      → q c ≡ xs ++ e ∷ ys
      → IsTable key_of (hash_del_node e t) (put_list q c (xs ++ ys))
  unfolding hash_del_node
  hash_del_node-IsTable c e xs ys hc p = record {
    some_size = v.some_size;
    buckets = Family-del t.size t.links t.heads q v.buckets c e xs ys hc p;
    placed = λ d hd x i. elim (In-put_list q c (xs ++ ys) d x i) [
      | inl (p', j) ↦
          v.placed d hd x
            (subst (λ k. In x (q k)) (sym p') (subst (In x) (sym p) (In-skip x xs e ys j)))
      | inr (_, j) ↦ v.placed d hd x j
    ];
  }

  -- An entry that has just been added at the front is what hash_find gives for its key.
  pub find-add_head :
      (e fuel : ℕ)
      → Stray t.size t.heads q e
      → 0 < fuel
      → hash_find fuel key_of (key_of e) (hash_add_head (key_of e) e t) ≡ some e
  unfolding hash_find hash_add_head
  find-add_head e fuel s h =
      let k : ℕ = hash t (key_of e) in
      let hk : k < t.size = mod-lt (key_of e) v.some_size in
      let r = list_add_head-IsRing t.links (t.heads k) e (q k) (v.buckets.ring k hk) (s k hk) in
      rw r.chain.0
        (find_from-first fuel key_of (hash_add_head (key_of e) e t) (t.heads k) e h r.distinct.0.0)
