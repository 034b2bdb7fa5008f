-- ===== src/Buddy/Alloc.antt =====
-- buddy_alloc takes one aligned block off the free lists, and no other page.
use riscv_lab.Common.{
  ℕ, zero, suc, ◌+◌, ◌-◌, ◌^◌, ◌≤◌, ◌<◌, ◌≡◌, refl, sym, ◌∙◌, ap, subst, Option, none, some, List,
  [], ◌∷◌, arith, In, inl, inr, le→ltb, ℕ_discrete,
}
use riscv_lab.Common.Int.{pos}
use riscv_lab.Dlist.{list_del}
use riscv_lab.Dlist.Ring.{IsRing, list_pop-del, list_empty-nil, list_empty-cons}
use riscv_lab.Dlist.Family.{put_list, In-put_list, Family-del}
use riscv_lab.Buddy.{Buddy, max_level, max_level_index, search, split, buddy_alloc}
use riscv_lab.Buddy.Cover.{inside, cover, cover_level, cover-put}
use riscv_lab.Buddy.Split.{Aligned, IsBuddy, Taken, split-IsSplit}

-- A block of a level is taken: the free lists lose its pages, once each, and no others.
pub record Gives (order p : ℕ) (b b' : Buddy) (q : ℕ → List ℕ) : Type 0 where
  pub lists : ℕ → List ℕ
  pub valid : IsBuddy b' lists
  pub covers : (x : ℕ) → cover max_level lists x + inside (2 ^ order) p x ≡ cover max_level q x
  pub aligned : Aligned order p
  pub counts : b'.count ≡ b.count

-- What a search from level `i` on gives.
abbrev pub Found : ℕ → ℕ → Buddy → (ℕ → List ℕ) → Option ℕ × Buddy → Type 0
Found i order b q (none, b') = (b' ≡ b) × ((k : ℕ) → i ≤ k → k < max_level → q k ≡ [])
Found i order b q (some p, b') = Gives order p b b' q

module _ (b : Buddy) (q : ℕ → List ℕ) (v : IsBuddy b q) (i p : ℕ) (ps : List ℕ) (h : i < max_level)
    (e : q i ≡ p ∷ ps) where
  abbrev popped : Buddy
  popped = record b { links = list_del p b.links }

  abbrev rest : ℕ → List ℕ
  rest = put_list q i ps

  ring : IsRing b.links (b.free_list i) (p ∷ ps)
  ring = subst (IsRing b.links (b.free_list i)) e (v.queues.ring i h)

  rest-cover : (x : ℕ) → cover max_level rest x + inside (2 ^ i) p x ≡ cover max_level q x
  rest-cover x =
      let c = cover-put max_level q i ps x h in
      let d =
        subst
          (λ xs.
            cover max_level rest x + cover_level (2 ^ i) xs x
            ≡ cover max_level q x + cover_level (2 ^ i) ps x)
          e c in
      omega (arith, d)

  popped-IsBuddy : IsBuddy popped rest
  popped-IsBuddy = record {
    queues = Family-del max_level b.links b.free_list q v.queues i p [] ps h e;
    aligned = λ k hk x j. elim (In-put_list q i ps k x j) [
      | inl (e', j') ↦
          v.aligned k hk x (subst (λ d. In x (q d)) (sym e') (subst (In x) (sym e) (inr j')))
      | inr (_, j') ↦ v.aligned k hk x j'
    ];
    once = λ x. omega (arith, rest-cover x, v.once x);
    heads = v.heads;
  }

  p-Taken : Taken rest i p
  p-Taken =
      let (a, f) = v.aligned i h p (subst (In p) (sym e) (inl refl)) in
      record { aligned = a; fits = f; once = λ x. omega (arith, rest-cover x, v.once x) }

  cut : (order : ℕ) → order ≤ i → Gives order p b (split (i - order) order p popped) q
  cut order ho =
      let k : order + (i - order) ≡ i = omega (arith, ho) in
      let s =
        split-IsSplit (i - order) order p popped rest popped-IsBuddy (omega (arith, k, h))
          (subst (λ j. Taken rest j p) (sym k) p-Taken) in
      record {
        lists = s.lists;
        valid = s.valid;
        covers = λ x.
            let g : inside (2 ^ (order + (i - order))) p x ≡ inside (2 ^ i) p x =
              ap (λ (j : ℕ). inside (2 ^ j) p x) k in
            omega (arith, s.covers x, rest-cover x, g);
        aligned = s.aligned;
        counts = s.counts;
      }

-- one level of the search, given what the levels above it give
module _ (n i order : ℕ) (b : Buddy) (q : ℕ → List ℕ) (v : IsBuddy b q) (ho : order ≤ i)
    (hi : i < max_level) (above : Found (i + 1) order b q (search n (i + 1) order b)) where
  later : (o : Option ℕ × Buddy) → q i ≡ [] → Found (i + 1) order b q o → Found i order b q o
  later (none, b') e f = (
    f.0,
    λ k a c. elim (ℕ_discrete k i) [ yes p ↦ ap q p ∙ e | no ne ↦ f.1 k (omega (arith, a, ne)) c ],
  )
  later (some p, b') e f = f

  level-Found : (xs : List ℕ) → q i ≡ xs → Found i order b q (search (suc n) i order b)
  unfolding search
  level-Found [] e =
      let r = subst (IsRing b.links (b.free_list i)) e (v.queues.ring i hi) in
      rw (list_empty-nil b.links (b.free_list i) r) (later (search n (i + 1) order b) e above)
  level-Found (p ∷ ps) e =
      let r = ring b q v i p ps hi e in
      let pop = list_pop-del b.links (b.free_list i) p ps r in
      rw (list_empty-cons b.links (b.free_list i) p ps r, ap (λ o. o.0) pop, ap (λ o. o.1) pop)
        (cut b q v i p ps hi e order ho)

search-Found :
    (n i order : ℕ) (b : Buddy) (q : ℕ → List ℕ)
    → IsBuddy b q
    → order ≤ i
    → i + n ≡ max_level
    → Found i order b q (search n i order b)
unfolding search
search-Found zero i order b q v ho hn = (refl, λ k a c. absurd (omega (arith, hn, a, c)))
search-Found (suc n) i order b q v ho hn =
    level-Found n i order b q v ho (omega (arith, hn))
      (search-Found n (i + 1) order b q v (omega (arith, ho)) (omega (arith, hn))) (q i) refl

-- With free lists of aligned blocks that cover no page twice, buddy_alloc returns a block of the
-- order asked for that is aligned, and takes exactly its pages off the free lists; it returns NULL
-- only if all lists from that order on are empty, and then changes nothing.
pub buddy_alloc-Found :
    (order : ℕ) (b : Buddy) (q : ℕ → List ℕ)
    → order < max_level
    → IsBuddy b q
    → Found order order b q (buddy_alloc (pos order) b)
unfolding buddy_alloc
buddy_alloc-Found order b q h v =
    rw (le→ltb max_level_index order (omega (arith, h)))
      (search-Found (max_level - order) order order b q v (omega arith) (omega (arith, h)))
