-- ===== src/Str/Block.antt =====
-- memset and memcpy, byte by byte.
use riscv_lab.Common.{
  ◌≢◌, ℕ, zero, suc, ◌+◌, ◌-◌, ◌%◌, ◌≤◌, ◌<◌, ◌≡◌, refl, ◌∙◌, ◌⊎◌, inl, inr, ap, arith, ltb, leb,
  ◌&&◌, if◌then◌else◌, dec_lt,
}
use riscv_lab.Str.{Memory, store, memset, memcpy}

-- memset sets exactly the bytes from `p` to `p + n`.
pub memset-read :
    (m : Memory) (p c n a : ℕ)
    → memset m p c n a ≡ (if leb p a && ltb a (p + n) then c % 256 else m a)
unfolding memset
memset-read m p c zero a = ground arith
memset-read m p c (suc n) a = ground (arith, memset-read (store m p (c % 256)) (p + 1) c n a)

-- bytes below the destination are not touched
memcpy_below : (m : Memory) (dst src n a : ℕ) → a < dst → memcpy m dst src n a ≡ m a
unfolding memcpy
memcpy_below m dst src zero a h = refl
memcpy_below m dst src (suc n) a h =
    ground (arith, memcpy_below (store m dst (m src)) (dst + 1) (src + 1) n a)

-- memcpy copies `n` bytes, and writes nothing else, when the destination does not start inside
-- the source; it may overlap the source from below.
pub memcpy-read :
    (m : Memory) (dst src n a : ℕ)
    → (dst ≤ src) ⊎ (src + n ≤ dst)
    → memcpy m dst src n a ≡ (if leb dst a && ltb a (dst + n) then m (src + (a - dst)) else m a)
unfolding memcpy
memcpy-read m dst src zero a h = ground arith
memcpy-read m dst src (suc n) a h =
    memcpy-read (store m dst (m src)) (dst + 1) (src + 1) n a (later h) ∙ elim (dec_lt dst a) [
      | yes p ↦
          let e : src + 1 + (a - (dst + 1)) ≡ src + (a - dst) = omega arith in
          rw e (ground (arith, apart h))
      | no p ↦ elim (dec_lt a dst) [
        | yes q ↦ ground arith
        | no q ↦
            let e : a ≡ dst = omega arith in
            let e' : m (src + (dst - dst)) ≡ m src = ap m (omega arith) in rw e (ground (arith, e'))
      ]
    ]
  where
    later : (dst ≤ src) ⊎ (src + suc n ≤ dst) → (dst + 1 ≤ src + 1) ⊎ (src + 1 + n ≤ dst + 1)
    later (inl g) = inl (omega arith)
    later (inr g) = inr (omega arith)

    apart : (dst ≤ src) ⊎ (src + suc n ≤ dst) → dst < a → a < dst + suc n → (src + (a - dst)) ≢ dst
    apart (inl g) i j = omega arith
    apart (inr g) i j = omega arith
