-- ===== src/Common/Members.antt =====
-- Membership in lists of numbers, as predicates by recursion that the tactics read.
use Prim.Native.Nat.{ℕ}
use mathlib.Core.Path.{◌≡◌, refl, sym, ◌∙◌}
use mathlib.Core.Logic.{◌≢◌, ◌⊎◌, inl, inr}
use mathlib.Core.List.{List, [], ◌∷◌, ◌++◌}

abbrev pub In : ℕ → List ℕ → Type 0
In a [] = ⊥
In a (x ∷ xs) = (a ≡ x) ⊎ In a xs

abbrev pub NotIn : ℕ → List ℕ → Type 0
NotIn a [] = Unit {0}
NotIn a (x ∷ xs) = (a ≢ x) × NotIn a xs

abbrev pub Distinct : List ℕ → Type 0
Distinct [] = Unit {0}
Distinct (x ∷ xs) = NotIn x xs × Distinct xs

-- no member of the first list is in the second
abbrev pub Apart : List ℕ → List ℕ → Type 0
Apart [] ys = Unit {0}
Apart (x ∷ xs) ys = NotIn x ys × Apart xs ys

pub NotIn-append : (a : ℕ) (xs ys : List ℕ) → NotIn a xs → NotIn a ys → NotIn a (xs ++ ys)
NotIn-append a [] ys h k = k
NotIn-append a (x ∷ xs) ys h k = (h.0, NotIn-append a xs ys h.1 k)

pub NotIn-left : (a : ℕ) (xs ys : List ℕ) → NotIn a (xs ++ ys) → NotIn a xs
NotIn-left a [] ys h = tt
NotIn-left a (x ∷ xs) ys h = (h.0, NotIn-left a xs ys h.1)

pub NotIn-right : (a : ℕ) (xs ys : List ℕ) → NotIn a (xs ++ ys) → NotIn a ys
NotIn-right a [] ys h = h
NotIn-right a (x ∷ xs) ys h = NotIn-right a xs ys h.1

pub ne_of_In : (a b : ℕ) (xs : List ℕ) → In a xs → NotIn b xs → a ≢ b
ne_of_In a b [] i n = absurd i
ne_of_In a b (x ∷ xs) (inl e) n = λ e'. n.0 (sym e' ∙ e)
ne_of_In a b (x ∷ xs) (inr i) n = ne_of_In a b xs i n.1

pub In-left : (a : ℕ) (xs ys : List ℕ) → In a xs → In a (xs ++ ys)
In-left a [] ys i = absurd i
In-left a (x ∷ xs) ys (inl e) = inl e
In-left a (x ∷ xs) ys (inr i) = inr (In-left a xs ys i)

pub In-right : (a : ℕ) (xs ys : List ℕ) → In a ys → In a (xs ++ ys)
In-right a [] ys i = i
In-right a (x ∷ xs) ys i = inr (In-right a xs ys i)

pub In-append : (a : ℕ) (xs ys : List ℕ) → In a (xs ++ ys) → In a xs ⊎ In a ys
In-append a [] ys i = inr i
In-append a (x ∷ xs) ys (inl e) = inl (inl e)
In-append a (x ∷ xs) ys (inr i) = elim (In-append a xs ys i) [ inl j ↦ inl (inr j) | inr j ↦ inr j ]

-- removing a middle part keeps the rest distinct
pub Distinct-drop :
    (xs : List ℕ) (y : ℕ) (ys : List ℕ) → Distinct (xs ++ y ∷ ys) → Distinct (xs ++ ys)
Distinct-drop [] y ys d = d.1
Distinct-drop (x ∷ xs) y ys d = (
  NotIn-append x xs ys (NotIn-left x xs (y ∷ ys) d.0) (NotIn-right x xs (y ∷ ys) d.0).1,
  Distinct-drop xs y ys d.1,
)

pub Distinct-insert :
    (xs : List ℕ) (y : ℕ) (ys : List ℕ)
    → Distinct (xs ++ ys)
    → NotIn y (xs ++ ys)
    → Distinct (xs ++ y ∷ ys)
Distinct-insert [] y ys d n = (n, d)
Distinct-insert (x ∷ xs) y ys d n = (
  NotIn-append x xs (y ∷ ys) (NotIn-left x xs ys d.0) ((λ e. n.0 (sym e)), NotIn-right x xs ys d.0),
  Distinct-insert xs y ys d.1 n.1,
)

pub Distinct-middle :
    (xs : List ℕ) (y : ℕ) (ys : List ℕ) → Distinct (xs ++ y ∷ ys) → NotIn y (xs ++ ys)
Distinct-middle [] y ys d = d.0
Distinct-middle (x ∷ xs) y ys d =
    ((λ e. (NotIn-right x xs (y ∷ ys) d.0).0 (sym e)), Distinct-middle xs y ys d.1)

pub In-skip : (a : ℕ) (xs : List ℕ) (e : ℕ) (ys : List ℕ) → In a (xs ++ ys) → In a (xs ++ e ∷ ys)
In-skip a [] e ys i = inr i
In-skip a (x ∷ xs) e ys (inl q) = inl q
In-skip a (x ∷ xs) e ys (inr i) = inr (In-skip a xs e ys i)

pub In-middle : (xs : List ℕ) (e : ℕ) (ys : List ℕ) → In e (xs ++ e ∷ ys)
In-middle [] e ys = inl refl
In-middle (x ∷ xs) e ys = inr (In-middle xs e ys)

pub NotIn-of : (a : ℕ) (xs : List ℕ) → (In a xs → ⊥) → NotIn a xs
NotIn-of a [] h = tt
NotIn-of a (x ∷ xs) h = ((λ e. h (inl e)), NotIn-of a xs (λ i. h (inr i)))

pub not_In : (a : ℕ) (xs : List ℕ) → NotIn a xs → In a xs → ⊥
not_In a xs n i = ne_of_In a a xs i n refl

-- the last element is in one list or is the one that follows
pub In-snoc : (a : ℕ) (xs : List ℕ) (e : ℕ) → In a (xs ++ e ∷ []) → In a xs ⊎ (a ≡ e)
In-snoc a xs e i = elim (In-append a xs (e ∷ []) i) [
  | inl j ↦ inl j
  | inr (inl q) ↦ inr q
  | inr (inr j) ↦ absurd j
]

-- two lists without a common member
abbrev pub Disjoint : List ℕ → List ℕ → Type 0
Disjoint xs ys = (a : ℕ) → In a xs → In a ys → ⊥

pub Apart-of : (xs ys : List ℕ) → Disjoint xs ys → Apart xs ys
Apart-of [] ys d = tt
Apart-of (x ∷ xs) ys d = (NotIn-of x ys (d x (inl refl)), Apart-of xs ys (λ a i. d a (inr i)))

pub Disjoint-sym : (xs ys : List ℕ) → Disjoint xs ys → Disjoint ys xs
Disjoint-sym xs ys d a i j = d a j i
