-- ===== src/Lru.antt =====
-- The two-level LRU list of lib/lru.c, over the linked lists. A node is named by the address of
-- its `list` field; `access` is the field of every node.
pub mod Inv
pub mod Up
pub mod Down
mod Tests
use riscv_lab.Common.{
  ℕ, ◌+◌, ◌-◌, ◌%◌, ◌^◌, Bool, true, false, Option, none, some, ◌==◌, if◌then◌else◌,
}
use riscv_lab.Dlist.{Links, update, init_list_head, list_del, list_add_tail}

-- `act` and `ina` are the addresses of the two list heads.
pub record Lru : Type 0 where
  pub links : Links
  pub access : ℕ → ℕ
  pub flags : ℕ
  pub act : ℕ
  pub ina : ℕ

unfoldable pub lru2_init : Lru → Lru
lru2_init s = record s { links = init_list_head s.ina (init_list_head s.act s.links); flags = 0 }

unfoldable pub lru2_node_init : ℕ → Lru → Lru
lru2_node_init node s = record s {
  links = init_list_head node s.links;
  access = update s.access node 0;
}

-- access++ and access-- on a uint32
abbrev pub bump : ℕ → Lru → Lru
bump node s = record s { access = update s.access node ((s.access node + 1) % 2 ^ 32) }

abbrev pub drop_one : ℕ → Lru → Lru
drop_one node s = record s { access = update s.access node (s.access node - 1) }

abbrev pub unlink : ℕ → Lru → Lru
unlink node s = record s { links = list_del node s.links }

abbrev pub to_tail : ℕ → ℕ → Lru → Lru
to_tail node head s = record s { links = list_add_tail node head s.links }

-- `none` is the panic of the default case.
unfoldable pub lru2_up : ℕ → Lru → Option Lru
lru2_up node s =
    if s.access node == 2
    then some (to_tail node s.act (unlink node s))
    else if s.access node == 1
    then some (to_tail node s.act (unlink node (bump node s)))
    else if s.access node == 0
    then some (to_tail node s.ina (bump node s))
    else none

unfoldable pub lru2_down : ℕ → Lru → Option Lru
lru2_down node s =
    if s.access node == 2
    then some (to_tail node s.ina (unlink node (drop_one node s)))
    else if s.access node == 1
    then some (unlink node (drop_one node s))
    else none
