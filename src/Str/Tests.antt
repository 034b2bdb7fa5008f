-- ===== src/Str/Tests.antt =====
-- The string "ab" at address 10 and "b" at 20, over a memory of ones.
use riscv_lab.Common.{
  ℕ, ◌≡◌, ◌%◌, ◌^◌, ◌↔◌, inr, some, List, [], ◌∷◌, arith, take, ◌==◌, if◌then◌else◌,
}
use riscv_lab.Common.Int.{pos}
use riscv_lab.Str.{Memory, store, IsStr, memcpy, strdup, strncpy, strncmp, strhash}
use riscv_lab.Str.Copy.{strdup-memcpy, strncpy_short, strncpy_overrun}
use riscv_lab.Str.Compare.{strncmp_iff}
use riscv_lab.Str.Hash.{djb2, strhash-djb2}

abbrev memory : Memory
memory p =
    if p == 10
    then 97
    else if p == 11
    then 98
    else if p == 12
    then 0
    else if p == 20
    then 98
    else if p == 21
    then 0
    else 1

abbrev ab : List ℕ
ab = 97 ∷ 98 ∷ []

ab-IsStr : IsStr memory 10 ab
ab-IsStr = ground arith

abbrev b : List ℕ
b = 98 ∷ []

b-IsStr : IsStr memory 20 b
b-IsStr = ground arith

strdup-memcpy_run : strdup 9 memory 40 10 ≡ some (3, memcpy memory 40 10 3)
strdup-memcpy_run = strdup-memcpy memory 40 10 ab ab-IsStr (inr (omega arith)) 9 (omega arith)

strncpy_short_run : strncpy memory 40 10 8 ≡ (2, store (memcpy memory 40 10 3) 43 0)
strncpy_short_run = strncpy_short memory 40 10 ab ab-IsStr (inr (omega arith)) 8 (omega arith)

strncpy_overrun_example : (strncpy memory 40 10 3).1 43 ≡ 0
strncpy_overrun_example =
    strncpy_overrun memory 40 10 ab ab-IsStr (inr (omega arith)) 3 (omega arith)

strncmp_iff_example : (strncmp memory 11 20 5 ≡ pos 0) ↔ (take 5 b ≡ take 5 b)
strncmp_iff_example = strncmp_iff memory 5 11 20 (98 ∷ []) (98 ∷ []) (ground arith) b-IsStr

strhash-djb2_run : strhash 5 memory 10 ≡ some (djb2 5381 ab % 2 ^ 31)
strhash-djb2_run = strhash-djb2 memory 10 ab 5 ab-IsStr (omega arith)
