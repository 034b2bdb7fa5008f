-- ===== src/Hash/Find.antt =====
-- hash_find finds an entry with the key wherever the table has one.
use riscv_lab.Common.{
  ℕ, zero, suc, ◌<◌, ◌≡◌, ◌≢◌, inl, inr, refl, sym, ◌∙◌, ap, subst, Option, none, some, List, [],
  ◌∷◌, arith, length, In, NotIn, ◌==◌, ==→eq, eq→==, ne→==, Bool-cases,
}
use native.Mathlib.Nat.{mod-lt}
use riscv_lab.Dlist.Chain.{Chain, first, next-first}
use riscv_lab.Dlist.Ring.{IsRing}
use riscv_lab.Dlist.Family.{Family}
use riscv_lab.Hash.{HashTable, hash, find_from, hash_find}

-- `q c` are the entries of bucket `c`, and each is in the bucket of its key
pub record IsTable (key_of : ℕ → ℕ) (t : HashTable) (q : ℕ → List ℕ) : Type 0 where
  pub some_size : 0 < t.size
  pub buckets : Family t.size t.links t.heads q
  pub placed : (c : ℕ) → c < t.size → (e : ℕ) → In e (q c) → hash t (key_of e) ≡ c

-- What a search for a key in a list gives.
abbrev pub Searched : (ℕ → ℕ) → ℕ → List ℕ → Option ℕ → Type 0
Searched key_of key xs none = (e : ℕ) → In e xs → key_of e ≢ key
Searched key_of key xs (some e) = In e xs × (key_of e ≡ key)

module _ (key_of : ℕ → ℕ) (key : ℕ) (t : HashTable) (h : ℕ) where
  skip :
      (x : ℕ) (xs : List ℕ) (o : Option ℕ)
      → key_of x ≢ key
      → Searched key_of key xs o
      → Searched key_of key (x ∷ xs) o
  skip x xs none ne s = λ e i. elim i [ inl p ↦ rw p ne | inr j ↦ s e j ]
  skip x xs (some e) ne s = (inr s.0, s.1)

  find_from-Searched :
      (fuel p : ℕ) (xs : List ℕ)
      → Chain t.links p xs h
      → NotIn h xs
      → length xs < fuel
      → Searched key_of key xs (find_from fuel key_of key t h (first xs h))
  unfolding find_from
  find_from-Searched zero p xs c n b = absurd (omega (arith, b))
  find_from-Searched (suc fuel) p [] c n b = rw (eq→== h h refl) (λ e i. absurd i)
  find_from-Searched (suc fuel) p (x ∷ xs) c n b =
      let ne : x ≢ h = λ e. n.0 (sym e) in
      elim (Bool-cases (key_of x == key)) [
        | inl hit ↦ rw (ne→== x h ne, hit) (inl refl, ==→eq (key_of x) key hit)
        | inr miss ↦
            rw (ne→== x h ne, miss, next-first t.links x h xs c.2)
              (skip x xs (find_from fuel key_of key t h (first xs h))
                (λ e. cc (eq→== (key_of x) key e, miss))
                (find_from-Searched fuel x xs c.2 n.1 (omega (arith, b))))
      ]

-- What a search for a key in the table gives.
abbrev pub FoundIn : (ℕ → ℕ) → ℕ → HashTable → (ℕ → List ℕ) → Option ℕ → Type 0
FoundIn key_of key t q none = (c e : ℕ) → c < t.size → In e (q c) → key_of e ≢ key
FoundIn key_of key t q (some e) = In e (q (hash t key)) × (key_of e ≡ key)

module _ (key_of : ℕ → ℕ) (key : ℕ) (t : HashTable) (q : ℕ → List ℕ) (v : IsTable key_of t q) where
  hash_lt : hash t key < t.size
  hash_lt = mod-lt key v.some_size

  everywhere : (o : Option ℕ) → Searched key_of key (q (hash t key)) o → FoundIn key_of key t q o
  everywhere none s = λ c e hc i k.
      let p : hash t key ≡ c = ap (hash t) (sym k) ∙ v.placed c hc e i in
      s e (subst (λ d. In e (q d)) (sym p) i) k
  everywhere (some e) s = s

  -- With more fuel than the bucket has entries, hash_find returns an entry of the table that has
  -- the key, or NULL if no entry of any bucket has it.
  pub hash_find-FoundIn :
      (fuel : ℕ)
      → length (q (hash t key)) < fuel
      → FoundIn key_of key t q (hash_find fuel key_of key t)
  unfolding hash_find
  hash_find-FoundIn fuel h =
      let r : IsRing t.links (t.heads (hash t key)) (q (hash t key)) =
        v.buckets.ring (hash t key) hash_lt in
      rw (next-first t.links (t.heads (hash t key)) (t.heads (hash t key)) (q (hash t key)) r.chain)
        (everywhere
          (find_from fuel key_of key t (t.heads (hash t key))
            (first (q (hash t key)) (t.heads (hash t key))))
          (find_from-Searched key_of key t (t.heads (hash t key)) fuel (t.heads (hash t key))
            (q (hash t key)) r.chain r.distinct.0 h))

-- the search stops at the node it begins with, if that has the key
pub find_from-first :
    (fuel : ℕ) (key_of : ℕ → ℕ) (t : HashTable) (h x : ℕ)
    → 0 < fuel
    → h ≢ x
    → find_from fuel key_of (key_of x) t h x ≡ some x
unfolding find_from
find_from-first zero key_of t h x b ne = absurd (omega (arith, b))
find_from-first (suc fuel) key_of t h x b ne =
    rw (ne→== x h (λ e. ne (sym e)), eq→== (key_of x) (key_of x) refl) refl
