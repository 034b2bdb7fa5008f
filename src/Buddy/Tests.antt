-- ===== src/Buddy/Tests.antt =====
-- Free lists with one block, of two pages at page 4; the list heads are at 40000 and on.
use riscv_lab.Common.{ℕ, ◌+◌, ◌^◌, ◌≤◌, ◌<◌, ◌≡◌, refl, List, [], ◌∷◌, arith, inl, inr}
use riscv_lab.Common.Int.{pos}
use riscv_lab.Dlist.{list_add_head}
use riscv_lab.Dlist.Family.{Family, put_list, In-put_list, Family-add_head}
use riscv_lab.Buddy.{Buddy, max_level, all_pfn, pg_free, buddy_alloc, alloc_pages}
use riscv_lab.Buddy.Split.{Aligned, IsBuddy}
use riscv_lab.Buddy.Alloc.{Found, buddy_alloc-Found}
use riscv_lab.Buddy.Count.{Leaks, free-alloc_leaks}

abbrev empty : Buddy
empty = record {
  links = record { next = λ a. a; prev = λ a. a };
  free_list = λ i. 40000 + i;
  count = λ _. pg_free;
}

abbrev no_blocks : ℕ → List ℕ
no_blocks _ = []

empty-Family : Family max_level empty.links empty.free_list no_blocks
empty-Family = record {
  ring = λ c h. record { chain = (refl, refl); distinct = (tt, tt) };
  apart = λ c d hc hd ne a i j. elim i [
    | inr i' ↦ absurd i'
    | inl e ↦ elim j [ inr j' ↦ absurd j' | inl e' ↦ absurd (omega (arith, e, e', ne)) ]
  ];
}

abbrev one : Buddy
one = record empty { links = list_add_head 4 (empty.free_list 1) empty.links }

abbrev one_block : ℕ → List ℕ
one_block = put_list no_blocks 1 (4 ∷ [])

one-Aligned :
    (k : ℕ) → k < max_level → (p : ℕ) → ((k ≡ 1) × (p ≡ 4)) → Aligned k p × (p + 2 ^ k ≤ all_pfn)
one-Aligned k h p (e, f) = rw (e, f) ((2, refl), omega arith)

one-IsBuddy : IsBuddy one one_block
one-IsBuddy = record {
  queues =
      Family-add_head max_level empty.links empty.free_list no_blocks empty-Family 1 4 (omega arith)
        (λ c h. (omega arith, tt));
  aligned = λ k h p i. elim (In-put_list no_blocks 1 (4 ∷ []) k p i) [
    | inl (e, inl f) ↦ one-Aligned k h p (e, f)
    | inl (e, inr j) ↦ absurd j
    | inr (_, j) ↦ absurd j
  ];
  once = λ x. ground arith;
  heads = λ k. omega arith;
}

buddy_alloc-Found_example : Found 0 0 one one_block (buddy_alloc (pos 0) one)
buddy_alloc-Found_example = buddy_alloc-Found 0 one one_block (omega arith) one-IsBuddy

free-alloc_leaks_example : Leaks 0 (alloc_pages (pos 0) one)
free-alloc_leaks_example = free-alloc_leaks 0 one one_block one-IsBuddy (λ p h. refl) (omega arith)
