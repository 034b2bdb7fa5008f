-- ===== src/Bitmap/Inv.antt =====
-- What a bitmap in use satisfies.
use riscv_lab.Common.{ℕ, ◌+◌, ◌*◌, ◌/◌, ◌<◌, ◌≡◌, true, arith, length}
use riscv_lab.Bitmap.{Bitmap, read_bit}
use riscv_lab.Bitmap.Bits.{Words}
use riscv_lab.Bitmap.Count.{count}

-- `unused` counts the clear bits below `size`, and no bit below `allocation` is clear.
pub record IsBitmap (b : Bitmap) : Type 0 where
  pub words : Words b.map
  pub blocks : length b.map ≡ (b.size + 63) / 64
  pub counted : b.unused ≡ count b.map b.size
  pub hint : (k : ℕ) → k < b.allocation → read_bit b.map k ≡ true

pub in_map : (b : Bitmap) → IsBitmap b → (j : ℕ) → j < b.size → j < 64 * length b.map
in_map b v j h = omega (arith, v.blocks)
