-- ===== src/Lru/Inv.antt =====
-- What the two lists hold, and how unlinking and appending change it.
use riscv_lab.Common.{
  ℕ, ◌≡◌, subst, inl, inr, Option, some, List, [], ◌∷◌, ◌++◌, In, NotIn, Disjoint, Distinct-middle,
  Apart-of, NotIn-of, In-skip, In-snoc, In-middle, not_In, Disjoint-sym,
}
use riscv_lab.Dlist.{Links, list_del, list_add_tail}
use riscv_lab.Dlist.Ring.{IsRing, list_del-IsRing, list_add_tail-IsRing}
use riscv_lab.Dlist.Frame.{list_del_frame, list_add_tail_frame}
use riscv_lab.Lru.{Lru}

-- Two rings that share no node.
pub record TwoRings (l : Links) (h : ℕ) (xs : List ℕ) (k : ℕ) (zs : List ℕ) : Type 0 where
  pub left : IsRing l h xs
  pub right : IsRing l k zs
  pub apart : Disjoint (h ∷ xs) (k ∷ zs)

pub TwoRings-swap :
    (l : Links) (h : ℕ) (xs : List ℕ) (k : ℕ) (zs : List ℕ)
    → TwoRings l h xs k zs
    → TwoRings l k zs h xs
TwoRings-swap l h xs k zs t = record {
  left = t.right;
  right = t.left;
  apart = Disjoint-sym (h ∷ xs) (k ∷ zs) t.apart;
}

-- Unlinking a node of the left ring.
pub TwoRings-del :
    (l : Links) (h e k : ℕ) (xs ys zs : List ℕ)
    → TwoRings l h (xs ++ e ∷ ys) k zs
    → TwoRings (list_del e l) h (xs ++ ys) k zs
TwoRings-del l h e k xs ys zs t = record {
  left = list_del-IsRing l h e xs ys t.left;
  right =
      list_del_frame l h k zs t.right e xs ys t.left
        (Apart-of (k ∷ zs) (h ∷ xs ++ ys) (λ a i j. t.apart a (In-skip a (h ∷ xs) e ys j) i));
  apart = λ a i j. t.apart a (In-skip a (h ∷ xs) e ys i) j;
}

-- Appending a node that is in neither ring to the left one.
pub TwoRings-add_tail :
    (l : Links) (h e k : ℕ) (xs zs : List ℕ)
    → TwoRings l h xs k zs
    → NotIn e (h ∷ xs)
    → NotIn e (k ∷ zs)
    → TwoRings (list_add_tail e h l) h (xs ++ e ∷ []) k zs
TwoRings-add_tail l h e k xs zs t n m = record {
  left = list_add_tail-IsRing l h e xs t.left n;
  right = list_add_tail_frame l h k zs t.right e xs t.left (
      Apart-of (k ∷ zs) (e ∷ h ∷ xs) (λ a i j. elim j [
        | inl q ↦ not_In e (k ∷ zs) m (subst (λ b. In b (k ∷ zs)) q i)
        | inr j' ↦ t.apart a j' i
      ]));
  apart = λ a i j. elim (In-snoc a (h ∷ xs) e i) [
    | inl i' ↦ t.apart a i' j
    | inr q ↦ not_In e (k ∷ zs) m (subst (λ b. In b (k ∷ zs)) q j)
  ];
}

-- The active list holds `acts`, all with access 2, and the inactive one `inas`, all with access 1.
pub record IsLru (s : Lru) (acts inas : List ℕ) : Type 0 where
  pub rings : TwoRings s.links s.act acts s.ina inas
  pub twice : (n : ℕ) → In n acts → s.access n ≡ 2
  pub once : (n : ℕ) → In n inas → s.access n ≡ 1

-- The operation returns, and the lists are then these.
abbrev pub Becomes : Option Lru → List ℕ → List ℕ → Type 0
Becomes o acts inas = (s : Lru) × (o ≡ some s) × IsLru s acts inas

-- a member of one list is outside the other ring, and outside its own once unlinked
pub outside_other :
    (l : Links) (h e k : ℕ) (xs ys zs : List ℕ)
    → TwoRings l h (xs ++ e ∷ ys) k zs
    → NotIn e (k ∷ zs)
outside_other l h e k xs ys zs t = NotIn-of e (k ∷ zs) (t.apart e (In-middle (h ∷ xs) e ys))

pub outside_own :
    (l : Links) (h e k : ℕ) (xs ys zs : List ℕ)
    → TwoRings l h (xs ++ e ∷ ys) k zs
    → NotIn e (h ∷ xs ++ ys)
outside_own l h e k xs ys zs t = Distinct-middle (h ∷ xs) e ys t.left.distinct
