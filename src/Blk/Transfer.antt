-- ===== src/Blk/Transfer.antt =====
-- Reads and writes of byte ranges through the cache, against one flat array of bytes.
use riscv_lab.Common.{
  ℕ, ◌+◌, ◌-◌, ◌*◌, ◌/◌, ◌%◌, ◌≤◌, ◌<◌, ◌≡◌, refl, ap, ◌∙◌, subst, Option, none, some, List, [],
  ◌∷◌, arith, length, ltb, leb, ◌&&◌, if◌then◌else◌, ℕ_discrete, dec_lt,
}
use riscv_lab.Bio.{Bio, blk_size}
use riscv_lab.Bio.Cover.{Covers}
use riscv_lab.Blk.Request.{Io, Dir, dev_read, dev_write, copy_in, then_serve, serve_bio, serve_bios}
use riscv_lab.Blk.{Cache}
use riscv_lab.Blk.Get.{cost}
use riscv_lab.Blk.Serve.{view, IsIo, Served, serve_bio-Served}

-- the byte at a position of the device, as it reads through the cache
abbrev pub byte : Io → ℕ → ℕ
byte s pos = view s (pos / blk_size) (pos % blk_size)

-- the free objects that the pieces need: one for each whose block has no buffer
abbrev pub missing : Cache → List Bio → ℕ
missing c [] = 0
missing c (o ∷ os) = cost c o.blockno + missing c os

missing_less :
    (c c' : Cache) (os : List Bio) → ((k : ℕ) → cost c' k ≤ cost c k) → missing c' os ≤ missing c os
missing_less c c' [] h = omega arith
missing_less c c' (o ∷ os) h = omega (arith, h o.blockno, missing_less c c' os h)

-- A transfer between the bytes of the device from `start` to `end` and the memory from `vaddr` on,
-- which fails only with fewer than `n` free objects.
abbrev pub Moves : ℕ → Dir → (start end vaddr : ℕ) → Io → Option Io → Type 0
Moves n dir start end vaddr s none = length s.cache.fresh < n
Moves n dev_read start end vaddr s (some s') =
    IsIo s'
    × ((pos : ℕ) → byte s' pos ≡ byte s pos)
    × ((a : ℕ)
        → s'.mem a ≡ (
            if leb vaddr a && ltb a (vaddr + (end - start))
            then byte s (start + (a - vaddr))
            else s.mem a))
Moves n dev_write start end vaddr s (some s') =
    IsIo s'
    × ((pos : ℕ)
        → byte s' pos
          ≡ (if leb start pos && ltb pos end then s.mem (vaddr + (pos - start)) else byte s pos))
    × ((a : ℕ) → s'.mem a ≡ s.mem a)

-- positions of a piece and of others
byte_in :
    (s : Io) (o : Bio) (start i : ℕ)
    → o.blockno * blk_size + o.offset ≡ start
    → o.offset + o.len ≤ blk_size
    → i < o.len
    → byte s (start + i) ≡ view s o.blockno (o.offset + i)
byte_in s o start i e h hi =
    let d : (start + i) / blk_size ≡ o.blockno = omega arith in
    let m : (start + i) % blk_size ≡ o.offset + i = omega arith in rw (d, m) refl

one_read :
    (s s' : Io) (o : Bio) (start end vaddr n m : ℕ)
    → n ≤ m
    → o.blockno * blk_size + o.offset ≡ start
    → o.offset + o.len ≤ blk_size
    → start + o.len ≤ end
    → Served (cost s.cache o.blockno) dev_read o vaddr s (some s')
    → (r : Option Io) → Moves n dev_read (start + o.len) end (vaddr + o.len) s' r
    → Moves (cost s.cache o.blockno + m) dev_read start end vaddr s r
one_read s s' o start end vaddr n m0 nm e h le (io, few, less, m, same) none rest =
    omega (arith, few, rest)
one_read s s' o start end vaddr n m0 nm e h le (io, few, less, m, same) (some s'')
      (io', same', m') =
    (
      io',
      (λ pos. same' pos ∙ ap (λ f. f (pos % blk_size)) (same (pos / blk_size))),
      λ a. m' a ∙ elim (dec_lt a vaddr) [
        | yes p ↦ rw m (ground arith)
        | no p ↦ elim (dec_lt a (vaddr + o.len)) [
          | yes p' ↦
              let b = byte_in s o start (a - vaddr) e h (omega arith) in rw m (ground (arith, b))
          | no p' ↦
              let k : start + o.len + (a - (vaddr + o.len)) ≡ start + (a - vaddr) = omega arith in
              let b =
                ap (λ f. f ((start + (a - vaddr)) % blk_size))
                  (same ((start + (a - vaddr)) / blk_size)) in
              rw (m, k) (ground (arith, b))
        ]
      ],
    )

-- what one piece of a write makes of the bytes
byte_written :
    (s s' : Io) (o : Bio) (start vaddr : ℕ)
    → o.blockno * blk_size + o.offset ≡ start
    → o.offset + o.len ≤ blk_size
    → Served (cost s.cache o.blockno) dev_write o vaddr s (some s')
    → (pos : ℕ)
    → byte s' pos ≡ (
        if leb start pos && ltb pos (start + o.len)
        then s.mem (vaddr + (pos - start))
        else byte s pos)
byte_written s s' o start vaddr e h (io, few, less, m, inside, outside) pos =
    elim (ℕ_discrete o.blockno (pos / blk_size)) [
      | yes q ↦
          let w = inside (pos % blk_size) (omega arith) in
          let w' =
            subst
              (λ k.
                view s' k (pos % blk_size)
                ≡ copy_in s.mem vaddr o.offset o.len (view s k) (pos % blk_size))
              q w in
          w' ∙ elim (dec_lt pos start) [
            | yes p ↦ ground arith
            | no p ↦ elim (dec_lt pos (start + o.len)) [
              | yes p' ↦
                  let k : pos % blk_size - o.offset ≡ pos - start = omega arith in
                  rw k (ground arith)
              | no p' ↦ ground arith
            ]
          ]
      | no ne ↦ ap (λ f. f (pos % blk_size)) (outside (pos / blk_size) ne) ∙ ground arith
    ]

one_write :
    (s s' : Io) (o : Bio) (start end vaddr n m : ℕ)
    → n ≤ m
    → o.blockno * blk_size + o.offset ≡ start
    → o.offset + o.len ≤ blk_size
    → start + o.len ≤ end
    → Served (cost s.cache o.blockno) dev_write o vaddr s (some s')
    → (r : Option Io) → Moves n dev_write (start + o.len) end (vaddr + o.len) s' r
    → Moves (cost s.cache o.blockno + m) dev_write start end vaddr s r
one_write s s' o start end vaddr n m0 nm e h le sv none rest = omega (arith, sv.1, rest)
one_write s s' o start end vaddr n m0 nm e h le sv (some s'') (io', bytes, m') = (
  io',
  (λ pos.
      let b = byte_written s s' o start vaddr e h sv pos in
      bytes pos ∙ elim (dec_lt pos start) [
        | yes p ↦ ground (arith, b)
        | no p ↦ elim (dec_lt pos (start + o.len)) [
          | yes p' ↦ ground (arith, b)
          | no p' ↦
              let k : vaddr + o.len + (pos - (start + o.len)) ≡ vaddr + (pos - start) =
                omega arith in
              rw (sv.3, k) (ground (arith, b))
        ]
      ]),
  λ a. m' a ∙ ap (λ f. f a) sv.3,
)

then_serve-Moves :
    (dir : Dir) (o : Bio) (start end vaddr : ℕ) (n : Io → ℕ) (s : Io) (f : Io → Option Io)
    → o.blockno * blk_size + o.offset ≡ start
    → o.offset + o.len ≤ blk_size
    → start + o.len ≤ end
    → ((t : Io) → ((k : ℕ) → cost t.cache k ≤ cost s.cache k) → n t ≤ n s)
    → ((t : Io) → IsIo t → Moves (n t) dir (start + o.len) end (vaddr + o.len) t (f t))
    → (r : Option Io) → Served (cost s.cache o.blockno) dir o vaddr s r
    → Moves (cost s.cache o.blockno + n s) dir start end vaddr s (then_serve f r)
then_serve-Moves dir o start end vaddr n s f e h le less rest none sv = omega (arith, sv)
then_serve-Moves dev_read o start end vaddr n s f e h le less rest (some t) sv =
    one_read s t o start end vaddr (n t) (n s) (less t sv.2) e h le sv (f t) (rest t sv.0)
then_serve-Moves dev_write o start end vaddr n s f e h le less rest (some t) sv =
    one_write s t o start end vaddr (n t) (n s) (less t sv.2) e h le sv (f t) (rest t sv.0)

Covers-le : (start end : ℕ) (os : List Bio) → Covers start end os → start ≤ end
Covers-le start end [] c = omega (arith, c)
Covers-le start end (o ∷ os) c = omega (arith, Covers-le (start + o.len) end os c.3)

no_bytes :
    (dir : Dir) (start end vaddr : ℕ) (s : Io)
    → start ≡ end
    → IsIo s
    → Moves 0 dir start end vaddr s (some s)
no_bytes dev_read start end vaddr s e io = (io, (λ pos. refl), λ a. ground arith)
no_bytes dev_write start end vaddr s e io = (io, (λ pos. ground arith), λ a. refl)

pub serve_bios-Moves :
    (dir : Dir) (os : List Bio) (start end vaddr : ℕ) (s : Io)
    → Covers start end os
    → IsIo s
    → Moves (missing s.cache os) dir start end vaddr s (serve_bios dir os vaddr s)
unfolding serve_bios
serve_bios-Moves dir [] start end vaddr s c io = no_bytes dir start end vaddr s c io
serve_bios-Moves dir (o ∷ os) start end vaddr s (e, pos, h, c) io =
    then_serve-Moves dir o start end vaddr (λ t. missing t.cache os) s
      (serve_bios dir os (vaddr + o.len)) e h (Covers-le (start + o.len) end os c)
      (λ t less. missing_less s.cache t.cache os less)
      (λ t iot. serve_bios-Moves dir os (start + o.len) end (vaddr + o.len) t c iot)
      (serve_bio dir o vaddr s) (serve_bio-Served dir o vaddr s pos io)
