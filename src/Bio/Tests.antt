-- ===== src/Bio/Tests.antt =====
-- 5000 bytes from byte 8000 of block 10.
use riscv_lab.Common.{◌+◌, ◌*◌, ◌≡◌, refl, [], ◌∷◌, arith}
use riscv_lab.Bio.{bio, bio_list_make, many_blocks, whole_blocks}
use riscv_lab.Bio.Cover.{Covers, bio_list_make-Covers}

pieces : bio_list_make 10 8000 5000 ≡ bio 11 3904 192 ∷ bio 12 0 4096 ∷ bio 13 0 712 ∷ []
unfolding bio_list_make many_blocks whole_blocks
pieces = refl

bio_list_make-Covers_example :
    Covers (10 * 4096 + 8000) (10 * 4096 + 8000 + 5000) (bio_list_make 10 8000 5000)
bio_list_make-Covers_example = bio_list_make-Covers 10 8000 5000 (omega arith) (omega arith)
