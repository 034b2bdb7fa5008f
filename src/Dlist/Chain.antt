-- ===== src/Dlist/Chain.antt =====
-- Chains of nodes: from one node forwards and backwards through a list to another.
use riscv_lab.Common.{
  ℕ, ◌≡◌, refl, sym, ◌∙◌, ◌≢◌, inl, inr, List, [], ◌∷◌, ◌++◌, arith, In, NotIn, Distinct, ne_of_In,
  In-left, NotIn-right,
}
use riscv_lab.Dlist.{Links, update, list_add_between, list_del_between}

abbrev pub Chain : Links → ℕ → List ℕ → ℕ → Type 0
Chain l p [] q = (l.next p ≡ q) × (l.prev q ≡ p)
Chain l p (x ∷ xs) q = (l.next p ≡ x) × (l.prev x ≡ p) × Chain l x xs q

abbrev pub last : ℕ → List ℕ → ℕ
last p [] = p
last p (x ∷ xs) = last x xs

abbrev pub first : List ℕ → ℕ → ℕ
first [] q = q
first (x ∷ xs) q = x

pub next-first : (l : Links) (p q : ℕ) (xs : List ℕ) → Chain l p xs q → l.next p ≡ first xs q
next-first l p q [] c = c.0
next-first l p q (x ∷ xs) c = c.0

pub prev-last : (l : Links) (p q : ℕ) (xs : List ℕ) → Chain l p xs q → l.prev q ≡ last p xs
prev-last l p q [] c = c.1
prev-last l p q (x ∷ xs) c = prev-last l x q xs c.2

-- a chain splits at each of its nodes
pub Chain-split :
    (l : Links) (p q y : ℕ) (xs ys : List ℕ)
    → Chain l p (xs ++ y ∷ ys) q
    → Chain l p xs y × Chain l y ys q
Chain-split l p q y [] ys c = ((c.0, c.1), c.2)
Chain-split l p q y (x ∷ xs) ys c = let r = Chain-split l x q y xs ys c.2 in ((c.0, c.1, r.0), r.1)

pub Chain-join :
    (l : Links) (p q y : ℕ) (xs ys : List ℕ)
    → Chain l p xs y
    → Chain l y ys q
    → Chain l p (xs ++ y ∷ ys) q
Chain-join l p q y [] ys c d = (c.0, c.1, d)
Chain-join l p q y (x ∷ xs) ys c d = (c.0, c.1, Chain-join l x q y xs ys c.2 d)

-- a chain survives what leaves its own pointers alone
pub Chain-frame :
    (l m : Links) (p q : ℕ) (xs : List ℕ)
    → ((a : ℕ) → In a (p ∷ xs) → m.next a ≡ l.next a)
    → ((a : ℕ) → In a (q ∷ xs) → m.prev a ≡ l.prev a)
    → Chain l p xs q
    → Chain m p xs q
Chain-frame l m p q [] n b c = (n p (inl refl) ∙ c.0, b q (inl refl) ∙ c.1)
Chain-frame l m p q (x ∷ xs) n b c = (
  n p (inl refl) ∙ c.0,
  b x (inr (inl refl)) ∙ c.1,
  Chain-frame l m x q xs (λ a i. n a (inr i)) (λ a i. b a (under a i)) c.2,
)
  where
    under : (a : ℕ) → In a (q ∷ xs) → In a (q ∷ x ∷ xs)
    under a (inl e) = inl e
    under a (inr i) = inr (inr i)

update_ne : (f : ℕ → ℕ) (p v q : ℕ) → q ≢ p → update f p v q ≡ f q
update_ne f p v q h = ground arith

In-last : (p : ℕ) (xs : List ℕ) → In (last p xs) (p ∷ xs)
In-last p [] = inl refl
In-last p (x ∷ xs) = inr (In-last x xs)

-- Linking a new node in between two neighbours of a chain.
pub Chain-add_between :
    (l : Links) (p q new : ℕ) (xs ys : List ℕ)
    → Chain l p (xs ++ ys) q
    → Distinct (p ∷ xs ++ ys)
    → NotIn q (xs ++ ys)
    → NotIn new (p ∷ q ∷ xs ++ ys)
    → Chain (list_add_between new (last p xs) (first ys q) l) p (xs ++ new ∷ ys) q
unfolding list_add_between
Chain-add_between l p q new [] [] c d nq nn = ground arith
Chain-add_between l p q new [] (y ∷ ys) c d nq nn = (
  ground arith,
  ground arith,
  (
    ground arith,
    ground arith,
    Chain-frame l (list_add_between new p y l) y q ys
        (λ a i. ground (arith, ne_of_In a p (y ∷ ys) i d.0, ne_of_In a new (y ∷ ys) i nn.1.1))
        (λ a i. ground (arith, back a i)) c.2,
  ),
)
  where
    back : (a : ℕ) → In a (q ∷ ys) → (a ≢ y) × (a ≢ new)
    back a (inl e) = (ground arith, ground arith)
    back a (inr i) = (ne_of_In a y ys i d.1.0, ne_of_In a new ys i nn.1.1.1)
Chain-add_between l p q new (x ∷ xs) ys c d nq nn = (
  ground (
    arith,
    ne_of_In (last x xs) p (x ∷ xs ++ ys) (In-left (last x xs) (x ∷ xs) ys (In-last x xs)) d.0,
  ),
  ground (arith, head_ne ys d.1.0),
  Chain-add_between l x q new xs ys c.2 d.1 nq.1 (nn.1.1.0, (nn.1.0, nn.1.1.1)),
)
  where
    head_ne : (zs : List ℕ) → NotIn x (xs ++ zs) → x ≢ first zs q
    head_ne [] n = λ e. nq.0 (sym e)
    head_ne (z ∷ zs) n = (NotIn-right x xs (z ∷ zs) n).0

-- Unlinking a node of a chain joins its neighbours.
pub Chain-del_between :
    (l : Links) (p q e : ℕ) (xs ys : List ℕ)
    → Chain l p (xs ++ e ∷ ys) q
    → Distinct (p ∷ xs ++ e ∷ ys)
    → NotIn q (xs ++ e ∷ ys)
    → Chain (list_del_between (last p xs) (first ys q) l) p (xs ++ ys) q
unfolding list_del_between
Chain-del_between l p q e [] [] c d nq = ground arith
Chain-del_between l p q e [] (y ∷ ys) c d nq = (
  ground arith,
  ground arith,
  Chain-frame l (list_del_between p y l) y q ys
      (λ a i. ground (arith, ne_of_In a p (y ∷ ys) i d.0.1)) (λ a i. ground (arith, back a i))
      c.2.2,
)
  where
    back : (a : ℕ) → In a (q ∷ ys) → a ≢ y
    back a (inl h) = ground arith
    back a (inr i) = ne_of_In a y ys i d.1.1.0
Chain-del_between l p q e (x ∷ xs) ys c d nq = (
  ground (
    arith,
    ne_of_In (last x xs) p (x ∷ xs ++ e ∷ ys) (In-left (last x xs) (x ∷ xs) (e ∷ ys) (In-last x xs))
        d.0,
  ),
  ground (arith, head_ne ys d.1.0),
  Chain-del_between l x q e xs ys c.2 d.1 nq.1,
)
  where
    head_ne : (zs : List ℕ) → NotIn x (xs ++ e ∷ zs) → x ≢ first zs q
    head_ne [] n = λ h. nq.0 (sym h)
    head_ne (z ∷ zs) n = (NotIn-right x xs (e ∷ z ∷ zs) n).1.0
