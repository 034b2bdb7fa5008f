-- ===== src/Hash.antt =====
-- The hash table of include/lib/hash.h and lib/hash.c. An entry is named by the address of its hash
-- node; a key is a number that the code takes modulo the size.
pub mod Find
pub mod Inv
mod Tests
use riscv_lab.Common.{
  ℕ, zero, suc, ◌+◌, ◌%◌, Bool, true, false, Option, none, some, ◌==◌, if◌then◌else◌,
}
use riscv_lab.Common.Int.{ℤ, pos, ◌+ℤ◌, ◌-ℤ◌}
use riscv_lab.Dlist.{Links, init_list_head, list_add_head, list_add_tail, list_del, list_empty}

-- `heads c` is the address of `heads[c]`; `count` is an int.
pub record HashTable : Type 0 where
  pub size : ℕ
  pub count : ℤ
  pub heads : ℕ → ℕ
  pub links : Links

-- for (i = 0; i < size; i++) INIT_LIST_HEAD(&heads[i]), with `n` of them done
unfoldable pub init_heads : ℕ → (ℕ → ℕ) → Links → Links
init_heads zero heads l = l
init_heads (suc n) heads l = init_list_head (heads n) (init_heads n heads l)

-- hash_init with the array that kmalloc gives; without one it fails.
unfoldable pub hash_init : Option (ℕ → ℕ) → ℕ → HashTable → Bool × HashTable
unfolding init_heads
hash_init none size t = (false, record t { size = size; count = pos 0 })
hash_init (some heads) size t = (
  true,
  record { size = size; count = pos 0; heads = heads; links = init_heads size heads t.links },
)

abbrev pub hash : HashTable → ℕ → ℕ
hash t key = key % t.size

unfoldable pub hash_empty : HashTable → ℕ → Bool
hash_empty t key = list_empty (t.heads (hash t key)) t.links

unfoldable pub hash_add_tail : ℕ → ℕ → HashTable → HashTable
hash_add_tail key list t = record t {
  links = list_add_tail list (t.heads (hash t key)) t.links;
  count = t.count +ℤ pos 1;
}

unfoldable pub hash_add_head : ℕ → ℕ → HashTable → HashTable
hash_add_head key list t = record t {
  links = list_add_head list (t.heads (hash t key)) t.links;
  count = t.count +ℤ pos 1;
}

-- the loop of hash_find, from a node on; `key_of` reads the key member, and fuel counts the nodes
unfoldable pub find_from : ℕ → (ℕ → ℕ) → ℕ → HashTable → (head node : ℕ) → Option ℕ
find_from zero key_of key t head node = none
find_from (suc fuel) key_of key t head node =
    let rest = find_from fuel key_of key t head (t.links.next node) in
    if node == head then none else if key_of node == key then some node else rest

unfoldable pub hash_find : ℕ → (ℕ → ℕ) → ℕ → HashTable → Option ℕ
unfolding find_from
hash_find fuel key_of key t =
    let head = t.heads (hash t key) in find_from fuel key_of key t head (t.links.next head)

unfoldable pub hash_del_node : ℕ → HashTable → HashTable
hash_del_node entry t = record t { links = list_del entry t.links; count = t.count -ℤ pos 1 }

-- the entry that is found, if there is one, and the table without it
unfoldable pub hash_del : ℕ → (ℕ → ℕ) → ℕ → HashTable → Option ℕ × HashTable
unfolding hash_find hash_del_node
hash_del fuel key_of key t = elim (hash_find fuel key_of key t) [
  | none ↦ (none, t)
  | some entry ↦ (some entry, hash_del_node entry t)
]
