-- ===== src/Hash/Tests.antt =====
-- A table of three buckets, whose list heads are at 100 and on; an entry is its own key.
use riscv_lab.Common.{ℕ, ◌+◌, ◌≡◌, refl, some, List, [], ◌∷◌, arith, inl, inr}
use riscv_lab.Common.Int.{pos}
use riscv_lab.Dlist.Family.{put_list, Stray}
use riscv_lab.Hash.{HashTable, hash_add_head, hash_find, hash_del_node}
use riscv_lab.Hash.Find.{IsTable, FoundIn, hash_find-FoundIn}
use riscv_lab.Hash.Inv.{hash_add_head-IsTable, hash_del_node-IsTable, find-add_head}

abbrev empty : HashTable
empty = record {
  size = 3;
  count = pos 0;
  heads = λ c. 100 + c;
  links = record { next = λ a. a; prev = λ a. a };
}

abbrev same : ℕ → ℕ
same e = e

abbrev no_entries : ℕ → List ℕ
no_entries _ = []

empty-IsTable : IsTable same empty no_entries
empty-IsTable = record {
  some_size = omega arith;
  buckets = record {
    ring = λ c h. record { chain = (refl, refl); distinct = (tt, tt) };
    apart = λ c d hc hd ne a i j. elim i [
      | inr i' ↦ absurd i'
      | inl e ↦ elim j [ inr j' ↦ absurd j' | inl e' ↦ absurd (omega (arith, e, e', ne)) ]
    ];
  };
  placed = λ c h e i. absurd i;
}

seven-Stray : Stray 3 empty.heads no_entries 7
seven-Stray c h = (omega arith, tt)

abbrev one : HashTable
one = hash_add_head 7 7 empty

abbrev with_seven : ℕ → List ℕ
with_seven = put_list no_entries 1 (7 ∷ [])

one-IsTable : IsTable same one with_seven
one-IsTable = hash_add_head-IsTable same empty no_entries empty-IsTable 7 seven-Stray

find-add_head_run : hash_find 2 same 7 one ≡ some 7
find-add_head_run = find-add_head same empty no_entries empty-IsTable 7 2 seven-Stray (omega arith)

hash_find-FoundIn_example : FoundIn same 10 one with_seven (hash_find 2 same 10 one)
unfolding hash_add_head
hash_find-FoundIn_example = hash_find-FoundIn same 10 one with_seven one-IsTable 2 (omega arith)

hash_del_node-IsTable_run : IsTable same (hash_del_node 7 one) (put_list with_seven 1 [])
unfolding hash_add_head
hash_del_node-IsTable_run =
    hash_del_node-IsTable same one with_seven one-IsTable 1 7 [] [] (omega arith) refl
