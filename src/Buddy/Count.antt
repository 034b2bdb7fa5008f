-- ===== src/Buddy/Count.antt =====
-- What the reference counts make of a page that is freed, and what an unaligned block makes of a
-- split.
use riscv_lab.Common.{ℕ, ◌^◌, ◌≤◌, ◌<◌, ◌≡◌, refl, ◌∙◌, ap, Option, none, some, List, arith, eq→==}
use riscv_lab.Common.Int.{ℤ, pos, ◌+ℤ◌, ◌-ℤ◌}
use riscv_lab.Buddy.{
  Buddy, max_level, buddy_alloc, pg_free, set_count, page_push, alloc_pages, free_pages,
  page_pop_test,
}
use riscv_lab.Buddy.Cover.{inside, cover, pow_pos}
use riscv_lab.Buddy.Split.{IsBuddy}
use riscv_lab.Buddy.Alloc.{Found, buddy_alloc-Found}

-- what free_pages makes of a block that has just been allocated; there is nothing to free if the
-- allocation fails
abbrev pub Leaks : ℕ → Option (ℕ × Buddy) → Type 0
Leaks order none = Unit {0}
Leaks order (some (p, b')) =
    ((free_pages p order b').links ≡ b'.links) × ((free_pages p order b').count p ≡ pg_free)

set_count_self : (f : ℕ → ℤ) (p : ℕ) (v : ℤ) → set_count f p v p ≡ v
set_count_self f p v = rw (eq→== p p refl) refl

free-zero :
    (p order : ℕ) (b : Buddy)
    → b.count p ≡ pos 0
    → free_pages p order b ≡ record b { count = set_count b.count p pg_free }
unfolding free_pages page_pop_test ◌-ℤ◌
free-zero p order b e = rw e refl

push-count : (p : ℕ) (b : Buddy) → b.count p ≡ pg_free → (page_push p b).count p ≡ pos 0
unfolding page_push ◌+ℤ◌
push-count p b e = rw (eq→== p p refl, e) refl

free-push : (p order : ℕ) (b : Buddy) → b.count p ≡ pg_free → Leaks order (some (p, page_push p b))
free-push p order b e =
    rw (free-zero p order (page_push p b) (push-count p b e))
      (refl, set_count_self (page_push p b).count p pg_free)

module _ (order : ℕ) (b : Buddy) (q : ℕ → List ℕ) (v : IsBuddy b q)
    (idle : (p : ℕ) → 1 ≤ cover max_level q p → b.count p ≡ pg_free) where
  given :
      (o : Option ℕ × Buddy)
      → Found order order b q o
      → Leaks order (elim o.0 [ none ↦ none | some p ↦ some (p, page_push p o.1) ])
  given (none, b') f = tt
  given (some p, b') f =
      let one : inside (2 ^ order) p p ≡ 1 = ground (arith, pow_pos order) in
      free-push p order b' (ap (λ g. g p) f.counts ∙ idle p (omega (arith, one, f.covers p)))

  -- With free lists in order whose pages all have the count -1, a block that alloc_pages has
  -- returned does not come back by free_pages: the free lists stay as the allocation left them,
  -- and the count is -1, as that of a free page.
  pub free-alloc_leaks : order < max_level → Leaks order (alloc_pages (pos order) b)
  unfolding alloc_pages
  free-alloc_leaks h = given (buddy_alloc (pos order) b) (buddy_alloc-Found order b q h v)
