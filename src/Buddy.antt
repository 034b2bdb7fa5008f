-- ===== src/Buddy.antt =====
-- The page allocator of mm/mm.c over the page array of mm/page.c. A page is named by its index, and
-- its `buddy` node has the index as its address. The allocator's lock makes each function one step.
pub mod Cover
pub mod Split
pub mod Alloc
pub mod Count
mod Tests
use riscv_lab.Common.{
  ℕ, zero, suc, ◌+◌, ◌-◌, ◌/◌, ◌%◌, ◌^◌, min, Bool, true, false, not, ◌||◌, Option, none, some,
  List, ◌==◌, ltb, leb, if◌then◌else◌,
}
use riscv_lab.Common.Int.{ℤ, pos, negsuc, ◌+ℤ◌, ◌-ℤ◌}
use riscv_lab.Dlist.{Links, init_list_head, list_add_head, list_del_init, list_empty, list_pop}

abbrev pub max_level : ℕ
max_level = 11

abbrev pub max_level_index : ℕ
max_level_index = 10

-- ALL_PFN: 128 MiB of pages of 4 KiB
abbrev pub all_pfn : ℕ
all_pfn = 32768

-- `free_list i` is the address of `free_lists[i]`; `count p` is the reference count of page `p`.
pub record Buddy : Type 0 where
  pub links : Links
  pub free_list : ℕ → ℕ
  pub count : ℕ → ℤ

-- index ^ (1 << order)
abbrev pub flip : ℕ → ℕ → ℕ
flip index order = if (index / 2 ^ order) % 2 == 0 then index + 2 ^ order else index - 2 ^ order

-- `none` is NULL, for a buddy behind the last page.
unfoldable pub find_buddy : ℕ → ℕ → Option ℕ
find_buddy page order = if leb all_pfn (flip page order) then none else some (flip page order)

-- for (j = i; j > order; j--) …, with `n` the number of rounds, so that j is order + n
unfoldable pub split : ℕ → ℕ → ℕ → Buddy → Buddy
unfolding find_buddy
split zero order page b = b
split (suc n) order page b = elim (find_buddy page (order + n)) [
  | none ↦ b
  | some buddy ↦
      split n order page
        (record b { links = list_add_head buddy (b.free_list (order + n)) b.links })
]

-- for (i = order; i < MAX_LEVEL; i++) …, with `n` levels left
unfoldable pub search : ℕ → ℕ → ℕ → Buddy → Option ℕ × Buddy
unfolding split
search zero i order b = (none, b)
search (suc n) i order b =
    let further = search n (i + 1) order b in
    let (node, l) = list_pop (b.free_list i) b.links in
    if list_empty (b.free_list i) b.links then further else elim node [
      | none ↦ (none, b)
      | some page ↦ (some page, split (i - order) order page (record b { links = l }))
    ]

unfoldable pub buddy_alloc : ℤ → Buddy → Option ℕ × Buddy
unfolding search
buddy_alloc (negsuc _) b = (none, b)
buddy_alloc (pos order) b =
    if ltb max_level_index order then (none, b) else search (max_level - order) order order b

abbrev pub pg_free : ℤ
pg_free = negsuc 0

abbrev pub is_minus_one : ℤ → Bool
is_minus_one (pos _) = false
is_minus_one (negsuc n) = n == 0

unfoldable pub is_page_free : ℕ → Buddy → Bool
is_page_free page b = is_minus_one (b.count page)

-- for (level = order; level < MAX_LEVEL_INDEX; level++) …, with `n` levels left: the block that the
-- page has grown to, and its level
unfoldable pub merge : ℕ → ℕ → ℕ → Buddy → ℕ × ℕ × Buddy
unfolding find_buddy is_page_free
merge zero level page b = (page, level, b)
merge (suc n) level page b = elim (find_buddy page level) [
  | none ↦ (page, level, b)
  | some buddy ↦
      let merged =
        merge n (level + 1) (min page buddy)
          (record b { links = list_del_init page (list_del_init buddy b.links) }) in
      if list_empty (b.free_list level) b.links || not (is_page_free buddy b)
      then (page, level, b)
      else merged
]

unfoldable pub buddy_free : ℕ → ℕ → Buddy → Buddy
unfolding merge
buddy_free page order b =
    let (p, level, b') = merge (max_level_index - order) order page b in
    record b' { links = list_add_head p (b'.free_list level) b'.links }

abbrev pub set_count : (ℕ → ℤ) → ℕ → ℤ → ℕ → ℤ
set_count f p v k = if k == p then v else f k

unfoldable pub page_push : ℕ → Buddy → Buddy
page_push page b = record b { count = set_count b.count page (b.count page +ℤ pos 1) }

-- `none` is the fault of page_push on NULL.
unfoldable pub alloc_pages : ℤ → Buddy → Option (ℕ × Buddy)
unfolding buddy_alloc page_push
alloc_pages order b =
    let (page, b') = buddy_alloc order b in
    elim page [ none ↦ none | some p ↦ some (p, page_push p b') ]

abbrev pub is_one : ℤ → Bool
is_one (pos n) = n == 1
is_one (negsuc _) = false

-- atomic_dec_and_test: counts down, and tells whether the new count is 0
unfoldable pub page_pop_test : ℕ → Buddy → Bool × Buddy
page_pop_test page b =
    (is_one (b.count page), record b { count = set_count b.count page (b.count page -ℤ pos 1) })

unfoldable pub free_pages : ℕ → ℕ → Buddy → Buddy
unfolding page_pop_test buddy_free
free_pages page order b =
    let (last, b') = page_pop_test page b in if last then buddy_free page order b' else b'

-- free_page
unfoldable pub free_page : ℕ → Buddy → Buddy
unfolding page_pop_test buddy_free
free_page page b =
    let (last, b') = page_pop_test page b in if last then buddy_free page 0 b' else b'

-- for (i = 0; i < MAX_LEVEL; i++) INIT_LIST_HEAD(&buddy.free_lists[i]), with `n` of them done
unfoldable pub init_lists : ℕ → Buddy → Buddy
init_lists zero b = b
init_lists (suc n) b =
    let b' = init_lists n b in record b' { links = init_list_head (b'.free_list n) b'.links }

-- the loop that adds the blocks of the last level, from page `i` on, with `n` rounds at most
unfoldable pub add_blocks : ℕ → ℕ → Buddy → Buddy
add_blocks zero i b = b
add_blocks (suc n) i b =
    let further =
      add_blocks n (i + 2 ^ max_level_index)
        (record b { links = list_add_head i (b.free_list max_level_index) b.links }) in
    if ltb i all_pfn then further else b

-- the loops over the last pages, with `n` pages left
unfoldable pub push_pages : ℕ → ℕ → Buddy → Buddy
unfolding page_push
push_pages zero i b = b
push_pages (suc n) i b = push_pages n (i + 1) (page_push i b)

unfoldable pub free_each : ℕ → ℕ → Buddy → Buddy
unfolding free_page
free_each zero i b = b
free_each (suc n) i b = free_each n (i + 1) (free_page i b)

-- 32 rounds reach the end of the page array from any page.
unfoldable pub buddy_init : ℕ → Buddy → Buddy
unfolding init_lists add_blocks push_pages free_each
buddy_init kernel_pfn_end b =
    let b1 = add_blocks 33 (kernel_pfn_end + 1) (init_lists max_level b) in
    let b2 = record b1 { links = (list_pop (b1.free_list max_level_index) b1.links).1 } in
    let n = (all_pfn - kernel_pfn_end) % 2 ^ max_level_index in
    free_each n (all_pfn - n) (push_pages n (all_pfn - n) b2)
