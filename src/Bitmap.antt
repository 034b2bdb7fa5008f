-- ===== src/Bitmap.antt =====
-- The block bitmap of lib/bitmap.c. A uint64 of the map is the list of its 64 bits, lowest first,
-- so that `w & (1ULL << bit)` reads one of them and `|=`, `&=` write one. An `int` that the code
-- never makes negative is a number; -1 from bitmap_alloc is `none`.
pub mod Bits
pub mod Scan
pub mod Count
pub mod Inv
pub mod Alloc
pub mod Free
pub mod Tests
use riscv_lab.Common.{
  ℕ, zero, suc, ◌+◌, ◌-◌, ◌*◌, ◌/◌, ◌%◌, Bool, true, false, not, ◌||◌, Option, none, some, List, [],
  ◌∷◌, get_or, set, ◌==◌, ltb, leb, if◌then◌else◌,
}
use riscv_lab.Common.Int.{ℤ, pos, negsuc}

abbrev pub Word : Type 0
Word = List Bool

pub record Bitmap : Type 0 where
  pub map : List Word
  pub size : ℕ
  pub unused : ℕ
  pub allocation : ℕ

-- the word that holds a bit, and a read and a write of one bit; out of the map reads as used
abbrev pub word_at : List Word → ℕ → Word
word_at m i = get_or m i []

unfoldable pub read_bit : List Word → ℕ → Bool
read_bit m j = get_or (word_at m (j / 64)) (j % 64) true

unfoldable pub write_bit : List Word → ℕ → Bool → List Word
write_bit m j v = set m (j / 64) (set (word_at m (j / 64)) (j % 64) v)

-- memset(map, 0, bytes): the first `8 * bytes` bits
unfoldable pub zero_bits : ℕ → List Word → List Word
zero_bits zero m = m
zero_bits (suc n) m = write_bit (zero_bits n m) n false

unfoldable pub bitmap_init : List Word → ℕ → Bitmap
unfolding zero_bits write_bit
bitmap_init map size_bits = record {
  map = zero_bits (8 * ((size_bits + 7) / 8)) map;
  size = size_bits;
  unused = size_bits;
  allocation = 0;
}

unfoldable pub bitmap_init_zone : List Word → ℕ → Bitmap
bitmap_init_zone map size_bits = record {
  map = map;
  size = size_bits;
  unused = size_bits;
  allocation = 0;
}

-- `w == ~0ULL`
unfoldable pub all_ones : Word → Bool
all_ones [] = true
all_ones (b ∷ w) = if b then all_ones w else false

-- for (; bit < 64; bit++) if (!(w & (1ULL << bit))) break, with `n` bits left
unfoldable pub find_zero : ℕ → Word → ℕ → Option ℕ
find_zero zero w bit = none
find_zero (suc n) w bit = if get_or w bit true then find_zero n w (bit + 1) else some bit

-- from a bit of block `i` to its index
abbrev pub at_word : ℕ → Option ℕ → Option ℕ
at_word i none = none
at_word i (some bit) = some (i * 64 + bit)

-- the body of the outer loop: a block that is all ones is skipped
unfoldable pub scan_word : Word → ℕ → ℕ → Option ℕ
unfolding all_ones find_zero
scan_word w i from = if all_ones w then none else at_word i (find_zero (64 - from) w from)

-- the bit where the scan of block `i` starts
abbrev pub block_from : ℕ → ℕ → ℕ → ℕ
block_from start_block start_bit i = if i == start_block then start_bit else 0

abbrev pub or_else : Option ℕ → Option ℕ → Option ℕ
or_else none o = o
or_else (some r) o = some r

-- the outer loop, with `n` blocks left
unfoldable pub find_block : ℕ → List Word → (start_block start_bit i : ℕ) → Option ℕ
unfolding scan_word
find_block zero m start_block start_bit i = none
find_block (suc n) m start_block start_bit i =
    or_else (scan_word (word_at m i) i (block_from start_block start_bit i))
      (find_block n m start_block start_bit (i + 1))

unfoldable pub bitmap_alloc : Bitmap → Option ℕ × Bitmap
unfolding find_block write_bit
bitmap_alloc b =
    if b.unused == 0
    then (none, b)
    else let total_blocks = (b.size + 63) / 64 in
      let start_block = b.allocation / 64 in
      let found =
        find_block (total_blocks - start_block) b.map start_block (b.allocation % 64) start_block in
      elim found [
        | none ↦ (none, b)
        | some res ↦ if ltb b.size res then (none, b) else (
          some res,
          record b { map = write_bit b.map res true; unused = b.unused - 1; allocation = res + 1 },
        )
      ]

-- The part of bitmap_free behind the range check.
unfoldable pub free_index : Bitmap → ℕ → Bitmap
unfolding read_bit write_bit
free_index b index =
    let hint = if ltb index b.allocation then index else b.allocation in
    if read_bit b.map index
    then record b { map = write_bit b.map index false; unused = b.unused + 1; allocation = hint }
    else record b { allocation = hint }

-- A negative index or one past the end, and a double free, only print a message.
unfoldable pub bitmap_free : Bitmap → ℤ → Bitmap
unfolding free_index
bitmap_free b (negsuc _) = b
bitmap_free b (pos index) = if leb b.size index then b else free_index b index

unfoldable pub bitmap_is_free : Bitmap → ℤ → ℤ
unfolding read_bit
bitmap_is_free b (negsuc _) = negsuc 0
bitmap_is_free b (pos index) =
    if leb b.size index then negsuc 0 else if read_bit b.map index then pos 0 else pos 1

-- The `int` that bitmap_alloc returns.
unfoldable pub to_int : Option ℕ → ℤ
to_int none = negsuc 0
to_int (some n) = pos n

unfoldable pub bitmap_reset_allo : Bitmap → ℕ → Bitmap
unfolding bitmap_alloc bitmap_free to_int
bitmap_reset_allo b start =
    let (index, b') = bitmap_alloc (record b { allocation = start }) in
    bitmap_free b' (to_int index)

unfoldable pub bitmap_reset_unused : Bitmap → ℕ → Bitmap
bitmap_reset_unused b n = record b { unused = n }
