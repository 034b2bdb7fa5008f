-- ===== src/Dlist.antt =====
-- The circular doubly linked list of include/lib/list.h, over the two pointers of every node.
-- An address is a number; `next` and `prev` say what the node at an address holds. The operations
-- are the writes of the source, in its order.
pub mod Chain
pub mod Ring
pub mod Frame
pub mod Family
pub mod Length
mod Tests
use riscv_lab.Common.{
  ℕ, zero, suc, ◌+◌, ◌≡◌, Bool, true, false, Option, none, some, ◌==◌, if◌then◌else◌,
}

pub record Links : Type 0 where
  pub next : ℕ → ℕ
  pub prev : ℕ → ℕ

-- a memory with one word written
abbrev pub update : (ℕ → ℕ) → ℕ → ℕ → ℕ → ℕ
update f p v q = if q == p then v else f q

abbrev pub set_next : ℕ → ℕ → Links → Links
set_next p v l = record l { next = update l.next p v }

abbrev pub set_prev : ℕ → ℕ → Links → Links
set_prev p v l = record l { prev = update l.prev p v }

-- INIT_LIST_HEAD
unfoldable pub init_list_head : ℕ → Links → Links
init_list_head p l = set_prev p p (set_next p p l)

-- __list_add: `prev->next = next->prev = _new` writes `next->prev` first
unfoldable pub list_add_between : ℕ → ℕ → ℕ → Links → Links
list_add_between new prev next l =
    set_prev new prev (set_next new next (set_next prev new (set_prev next new l)))

-- __list_del
unfoldable pub list_del_between : ℕ → ℕ → Links → Links
list_del_between prev next l = set_prev next prev (set_next prev next l)

unfoldable pub list_del : ℕ → Links → Links
list_del entry l = list_del_between (l.prev entry) (l.next entry) l

unfoldable pub list_del_init : ℕ → Links → Links
list_del_init entry l = init_list_head entry (list_del_between (l.prev entry) (l.next entry) l)

unfoldable pub list_add_tail : ℕ → ℕ → Links → Links
list_add_tail new list l = list_add_between new (l.prev list) list l

unfoldable pub list_add_head : ℕ → ℕ → Links → Links
list_add_head new list l = list_add_between new list (l.next list) l

unfoldable pub list_is_first : ℕ → ℕ → Links → Bool
list_is_first list head l = l.prev list == head

unfoldable pub list_is_last : ℕ → ℕ → Links → Bool
list_is_last list head l = l.next list == head

unfoldable pub list_empty : ℕ → Links → Bool
list_empty list l = l.next list == list

unfoldable pub list_first : ℕ → Links → ℕ
list_first list l = l.next list

-- `right_list->next` and `left_list->prev` are read again after the first write
unfoldable pub list_splice_down : ℕ → ℕ → Links → Links
list_splice_down left right l =
    let m = set_next (l.prev left) (l.next right) l in set_prev (m.next right) (m.prev left) m

unfoldable pub list_splice_up_left : ℕ → ℕ → ℕ → Links → Links
list_splice_up_left head left right l =
    let a = set_prev left head l in
    let b = set_next right (a.next head) a in
    let c = set_prev (b.next head) right b in set_next head left c

unfoldable pub list_splice_up_right : ℕ → ℕ → ℕ → Links → Links
list_splice_up_right head left right l =
    let a = set_prev left (l.prev head) l in
    let b = set_next right head a in let c = set_next (b.prev head) left b in set_prev head right c

-- `none` is NULL
unfoldable pub list_pop : ℕ → Links → Option ℕ × Links
unfolding list_empty list_del
list_pop list l =
    if list_empty list l then (none, l) else (some (l.next list), list_del (l.next list) l)

-- What a walk of a list gives: its length, or the panic past the limit.
pub data Walk : Type 0 where
  counted : ℕ → Walk
  panicked : Walk

abbrev pub list_len_max : ℕ
list_len_max = 1_000_000

-- The loop of list_len at `pos`, when `left` more nodes may be counted before `len > max` panics.
unfoldable pub list_len_from : ℕ → ℕ → ℕ → ℕ → Links → Walk
list_len_from zero len pos head l = elim (pos == head) [ true ↦ counted len | false ↦ panicked ]
list_len_from (suc left) len pos head l = elim (pos == head) [
  | true ↦ counted len
  | false ↦ list_len_from left (len + 1) (l.next pos) head l
]

unfoldable pub list_len : ℕ → Links → Walk
list_len head l = list_len_from list_len_max 0 (l.next head) head l
