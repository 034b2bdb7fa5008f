-- ===== src/File/Seek.antt =====
-- Seeking stays inside the file, and moves by what the caller asks for.
use riscv_lab.Common.{
  ℕ, ◌+◌, ◌-◌, ◌%◌, ◌^◌, ◌≤◌, ◌<◌, ◌≡◌, ◌⊎◌, inl, inr, refl, Option, none, some, arith, dec_lt,
  lt→ltb, le→ltb,
}
use riscv_lab.Common.Int.{ℤ, pos, negsuc}
use riscv_lab.File.{
  File, Whence, seek_set, seek_cur, seek_end, seek_other, seek_to, at_inode, seek, file_llseek,
}

-- The offset that the caller asks for, wrapped to 32 bits; none for an unknown `whence`.
abbrev pub target : (size offset : ℕ) → Whence → File → Option ℕ
target size offset seek_set f = some offset
target size offset seek_cur f = some ((f.off + offset) % 2 ^ 32)
target size offset seek_end f = some ((size + offset) % 2 ^ 32)
target size offset seek_other f = none

-- What a seek to an offset gives in a file of some size: exactly that offset if it is inside the
-- file, and otherwise the error and no change.
abbrev pub Sought : ℕ → Option ℕ → File → ℤ × File → Type 0
Sought size none f (r, g) = (r ≡ negsuc 0) × (g ≡ f)
Sought size (some new) f (r, g) =
    ((new ≤ size) × (r ≡ pos 0) × (g ≡ record f { off = new }))
    ⊎ ((size < new) × (r ≡ negsuc 0) × (g ≡ f))

-- It stops without an inode, and only then.
abbrev pub SoughtIn : ℕ → Option ℕ → File → Option (ℤ × File) → Type 0
SoughtIn size new f none = f.ip ≡ none
SoughtIn size new f (some r) = ((i : ℕ) × (f.ip ≡ some i)) × Sought size new f r

seek_to-Sought : (size new : ℕ) (f : File) → Sought size (some new) f (seek_to size new f)
seek_to-Sought size new f = elim (dec_lt size new) [
  | yes h ↦ rw (lt→ltb size new h) (inr (h, refl, refl))
  | no h ↦ rw (le→ltb size new (omega (arith, h))) (inl (omega (arith, h), refl, refl))
]

seek-Sought :
    (size offset : ℕ) (w : Whence) (f : File)
    → Sought size (target size offset w f) f (seek size offset w f)
seek-Sought size offset seek_set f = seek_to-Sought size offset f
seek-Sought size offset seek_cur f = seek_to-Sought size ((f.off + offset) % 2 ^ 32) f
seek-Sought size offset seek_end f = seek_to-Sought size ((size + offset) % 2 ^ 32) f
seek-Sought size offset seek_other f = (refl, refl)

inode-SoughtIn :
    (size : ℕ) (new : Option ℕ) (f : File) (o : Option ℕ) (r : ℤ × File)
    → f.ip ≡ o
    → Sought size new f r
    → SoughtIn size new f (at_inode o r)
inode-SoughtIn size new f none r e s = e
inode-SoughtIn size new f (some i) r e s = ((i, e), s)

module _ (size : ℕ) (f : File) (i : ℕ) (has_inode : f.ip ≡ some i) where
  -- On an open file file_llseek moves by a distance back from the end, or from the offset, given as
  -- a wrapped negative number, if that stays inside the file.
  pub file_llseek_back :
      (k : ℕ)
      → 0 < k
      → k ≤ size
      → k ≤ f.off
      → f.off ≤ size
      → size < 2 ^ 32
      → (file_llseek size (2 ^ 32 - k) seek_end f ≡ some (pos 0, record f { off = size - k }))
        × (file_llseek size (2 ^ 32 - k) seek_cur f ≡ some (pos 0, record f { off = f.off - k }))
  unfolding file_llseek
  file_llseek_back k h a b c d =
      let e : (size + (2 ^ 32 - k)) % 2 ^ 32 ≡ size - k = omega arith in
      let g : (f.off + (2 ^ 32 - k)) % 2 ^ 32 ≡ f.off - k = omega arith in
      (
        rw (has_inode, e, le→ltb size (size - k) (omega arith)) refl,
        rw (has_inode, g, le→ltb size (f.off - k) (omega arith)) refl,
      )

-- file_llseek stops exactly on a file without an inode. On another file it sets the offset that
-- `whence` asks for, `offset` from the start, from the offset or from the end, wrapped to 32 bits, if
-- that is not past the end of the file, and returns 0; past the end, and for an unknown `whence`, it
-- returns -1 and changes nothing.
pub file_llseek-SoughtIn :
    (size offset : ℕ) (w : Whence) (f : File)
    → SoughtIn size (target size offset w f) f (file_llseek size offset w f)
unfolding file_llseek
file_llseek-SoughtIn size offset w f =
    inode-SoughtIn size (target size offset w f) f f.ip (seek size offset w f) refl
      (seek-Sought size offset w f)
