-- ===== src/Dlist/Family.antt =====
-- Many lists that share no node, as the buckets of a table or the queues of the processors.
use riscv_lab.Common.{
  ℕ, ◌<◌, ◌≡◌, ◌≢◌, ◌⊎◌, refl, sym, ◌∙◌, subst, inl, inr, List, [], ◌∷◌, ◌++◌, In, NotIn, Disjoint,
  Disjoint-sym, Apart-of, not_In, In-skip, In-snoc, ◌==◌, eq→==, ne→==, if◌then◌else◌, ℕ_discrete,
}
use riscv_lab.Dlist.{Links, list_del, list_add_head, list_add_tail}
use riscv_lab.Dlist.Ring.{IsRing, list_del-IsRing, list_add_head-IsRing, list_add_tail-IsRing}
use riscv_lab.Dlist.Frame.{list_del_frame, list_add_head_frame, list_add_tail_frame}

-- `head c` is the list head of list `c`, and `q c` are its nodes.
pub record Family (n : ℕ) (l : Links) (head : ℕ → ℕ) (q : ℕ → List ℕ) : Type 0 where
  pub ring : (c : ℕ) → c < n → IsRing l (head c) (q c)
  pub apart : (c d : ℕ) → c < n → d < n → c ≢ d → Disjoint (head c ∷ q c) (head d ∷ q d)

abbrev pub put_list : (ℕ → List ℕ) → ℕ → List ℕ → ℕ → List ℕ
put_list q c xs k = if k == c then xs else q k

pub put_list_self : (q : ℕ → List ℕ) (c : ℕ) (xs : List ℕ) → put_list q c xs c ≡ xs
put_list_self q c xs = rw (eq→== c c refl) refl

pub put_list_ne : (q : ℕ → List ℕ) (c : ℕ) (xs : List ℕ) (k : ℕ) → k ≢ c → put_list q c xs k ≡ q k
put_list_ne q c xs k ne = rw (ne→== k c ne) refl

pub In-put_list :
    (q : ℕ → List ℕ) (c : ℕ) (xs : List ℕ) (k a : ℕ)
    → In a (put_list q c xs k)
    → ((k ≡ c) × In a xs) ⊎ ((k ≢ c) × In a (q k))
In-put_list q c xs k a i = elim (ℕ_discrete k c) [
  | yes e ↦ let p : put_list q c xs k ≡ xs = rw (eq→== k c e) refl in inl (e, subst (In a) p i)
  | no ne ↦ inr (ne, subst (In a) (put_list_ne q c xs k ne) i)
]

-- in none of the lists
abbrev pub Stray : ℕ → (ℕ → ℕ) → (ℕ → List ℕ) → ℕ → Type 0
Stray n head q a = (c : ℕ) → c < n → NotIn a (head c ∷ q c)

module _ (n : ℕ) (l : Links) (head : ℕ → ℕ) (q : ℕ → List ℕ) (f : Family n l head q) where
  -- a list may take the place of another if it has only its nodes and strays
  module _ (m : Links) (c : ℕ) (hc : c < n) (zs : List ℕ)
      (from : (a : ℕ) → In a zs → In a (q c) ⊎ Stray n head q a) where
    new_apart : (d : ℕ) → d < n → c ≢ d → Disjoint (head c ∷ zs) (head d ∷ q d)
    new_apart d hd ne a (inl e) j = f.apart c d hc hd ne a (inl e) j
    new_apart d hd ne a (inr i) j = elim (from a i) [
      | inl old ↦ f.apart c d hc hd ne a (inr old) j
      | inr stray ↦ not_In a (head d ∷ q d) (stray d hd) j
    ]

    put_apart :
        (i j : ℕ)
        → i < n
        → j < n
        → i ≢ j
        → Disjoint (head i ∷ put_list q c zs i) (head j ∷ put_list q c zs j)
    put_apart i j hi hj ne = elim (ℕ_discrete i c) [
      | yes e ↦
          let ne' : c ≢ j = λ p. ne (e ∙ p) in
          let ne'' : j ≢ c = λ p. ne' (sym p) in
          rw (eq→== i c e, ne→== j c ne'')
            (subst (λ k. Disjoint (head k ∷ zs) (head j ∷ q j)) (sym e) (new_apart j hj ne'))
      | no ni ↦ elim (ℕ_discrete j c) [
        | yes e ↦
            let ne' : c ≢ i = λ p. ne (sym p ∙ sym e) in
            rw (ne→== i c ni, eq→== j c e)
              (subst (λ k. Disjoint (head i ∷ q i) (head k ∷ zs)) (sym e)
                (Disjoint-sym (head c ∷ zs) (head i ∷ q i) (new_apart i hi ne')))
        | no nj ↦ rw (ne→== i c ni, ne→== j c nj) (f.apart i j hi hj ne)
      ]
    ]

    pub Family-put :
        IsRing m (head c) zs
        → ((k : ℕ) → k < n → k ≢ c → IsRing m (head k) (q k))
        → Family n m head (put_list q c zs)
    Family-put r frame = record {
      ring = λ k hk. elim (ℕ_discrete k c) [
        | yes e ↦ rw (eq→== k c e) (subst (λ j. IsRing m (head j) zs) (sym e) r)
        | no ne ↦ rw (ne→== k c ne) (frame k hk ne)
      ];
      apart = put_apart;
    }

  -- A node that is in none of the lists goes to the front of one.
  pub Family-add_head :
      (c new : ℕ)
      → c < n
      → Stray n head q new
      → Family n (list_add_head new (head c) l) head (put_list q c (new ∷ q c))
  Family-add_head c new hc s =
      Family-put (list_add_head new (head c) l) c hc (new ∷ q c)
        (λ a i. elim i [ inl e ↦ inr (subst (Stray n head q) (sym e) s) | inr i ↦ inl i ])
        (list_add_head-IsRing l (head c) new (q c) (f.ring c hc) (s c hc))
        (λ k hk ne.
          list_add_head_frame l (head c) (head k) (q k) (f.ring k hk) new (q c) (f.ring c hc) (
            Apart-of (head k ∷ q k) (new ∷ head c ∷ q c) (λ a i j. elim j [
              | inl e ↦ not_In new (head k ∷ q k) (s k hk) (subst (λ b. In b (head k ∷ q k)) e i)
              | inr j ↦ f.apart k c hk hc ne a i j
            ])))

  -- A node that is in none of the lists goes to the end of one.
  pub Family-add_tail :
      (c new : ℕ)
      → c < n
      → Stray n head q new
      → Family n (list_add_tail new (head c) l) head (put_list q c (q c ++ new ∷ []))
  Family-add_tail c new hc s =
      Family-put (list_add_tail new (head c) l) c hc (q c ++ new ∷ [])
        (λ a i. elim (In-snoc a (q c) new i) [
          | inl i ↦ inl i
          | inr e ↦ inr (subst (Stray n head q) (sym e) s)
        ])
        (list_add_tail-IsRing l (head c) new (q c) (f.ring c hc) (s c hc))
        (λ k hk ne.
          list_add_tail_frame l (head c) (head k) (q k) (f.ring k hk) new (q c) (f.ring c hc) (
            Apart-of (head k ∷ q k) (new ∷ head c ∷ q c) (λ a i j. elim j [
              | inl e ↦ not_In new (head k ∷ q k) (s k hk) (subst (λ b. In b (head k ∷ q k)) e i)
              | inr j ↦ f.apart k c hk hc ne a i j
            ])))

  -- A node of one of the lists leaves it.
  pub Family-del :
      (c e : ℕ) (xs ys : List ℕ)
      → c < n
      → q c ≡ xs ++ e ∷ ys
      → Family n (list_del e l) head (put_list q c (xs ++ ys))
  Family-del c e xs ys hc eq =
      let r : IsRing l (head c) (xs ++ e ∷ ys) = subst (IsRing l (head c)) eq (f.ring c hc) in
      let back = λ (a : ℕ) (i : In a (xs ++ ys)). subst (In a) (sym eq) (In-skip a xs e ys i) in
      Family-put (list_del e l) c hc (xs ++ ys) (λ a i. inl (back a i))
        (list_del-IsRing l (head c) e xs ys r)
        (λ k hk ne. list_del_frame l (head c) (head k) (q k) (f.ring k hk) e xs ys r (
          Apart-of (head k ∷ q k) (head c ∷ xs ++ ys) (λ a i j. elim j [
            | inl p ↦ f.apart k c hk hc ne a i (inl p)
            | inr j ↦ f.apart k c hk hc ne a i (inr (back a j))
          ])))
