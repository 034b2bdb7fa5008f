-- ===== src/Bitmap/Tests.antt =====
-- A bitmap of five bits, with the first two and the fourth used.
use riscv_lab.Common.{
  ℕ, zero, suc, ◌<◌, ◌≡◌, refl, true, false, none, some, [], ◌∷◌, arith, length, replicate,
}
use riscv_lab.Common.Int.{pos, negsuc}
use riscv_lab.Bitmap.{
  Bitmap, Word, word_at, read_bit, bitmap_alloc, bitmap_free, bitmap_init, bitmap_is_free,
}
use riscv_lab.Bitmap.Count.{count}
use riscv_lab.Bitmap.Inv.{IsBitmap}
use riscv_lab.Bitmap.Alloc.{Allocated, bitmap_alloc-Allocated, bitmap_alloc-IsBitmap}
use riscv_lab.Bitmap.Free.{given, Reuses, bitmap_free_lem, bitmap_free-IsBitmap, free-alloc}

abbrev pub word : Word
word = true ∷ true ∷ false ∷ true ∷ false ∷ replicate 59 false

abbrev pub demo : Bitmap
demo = record { map = word ∷ []; size = 5; unused = 2; allocation = 1 }

demo_words : (i : ℕ) → i < 1 → length (word_at (word ∷ []) i) ≡ 64
demo_words zero h = refl
demo_words (suc i) h = absurd (omega arith)

demo_hint : (k : ℕ) → k < 1 → read_bit (word ∷ []) k ≡ true
unfolding read_bit
demo_hint zero h = refl
demo_hint (suc k) h = absurd (omega arith)

pub demo-IsBitmap : IsBitmap demo
unfolding count read_bit
demo-IsBitmap = record { words = demo_words; blocks = refl; counted = refl; hint = demo_hint }

takes_the_lowest : (bitmap_alloc demo).0 ≡ some 2
unfolding bitmap_alloc
takes_the_lowest = refl

init_is_empty : (bitmap_alloc (bitmap_init (word ∷ []) 5)).0 ≡ some 0
unfolding bitmap_alloc bitmap_init
init_is_empty = refl

full_fails : (bitmap_alloc (record demo { unused = 0 })).0 ≡ none
unfolding bitmap_alloc
full_fails = refl

asks : bitmap_is_free demo (pos 7) ≡ negsuc 0
unfolding bitmap_is_free
asks = refl

bitmap_alloc-Allocated_example : Allocated demo (bitmap_alloc demo)
bitmap_alloc-Allocated_example = bitmap_alloc-Allocated demo demo-IsBitmap

bitmap_alloc-IsBitmap_example : IsBitmap (bitmap_alloc demo).1
bitmap_alloc-IsBitmap_example = bitmap_alloc-IsBitmap demo demo-IsBitmap

bitmap_free_lem_run :
    (bitmap_free demo (pos 3) ≡ given demo 3) × (bitmap_free demo (negsuc 3) ≡ demo)
unfolding read_bit
bitmap_free_lem_run = bitmap_free_lem demo demo-IsBitmap 3

bitmap_free-IsBitmap_run : IsBitmap (bitmap_free demo (pos 3))
bitmap_free-IsBitmap_run = bitmap_free-IsBitmap demo demo-IsBitmap (pos 3)

free-alloc_example : Reuses 0 demo (bitmap_alloc (bitmap_free demo (pos 0)))
unfolding read_bit
free-alloc_example = free-alloc demo demo-IsBitmap 0 (omega arith) refl (omega arith)
