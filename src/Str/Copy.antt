-- ===== src/Str/Copy.antt =====
-- strdup and strncpy on a source that holds a string.
use riscv_lab.Common.{
  ℕ, zero, suc, ◌+◌, ◌≤◌, ◌<◌, ◌≡◌, ◌≢◌, sym, ap₂, false, ◌∙◌, ◌⊎◌, inl, inr, ap, arith, ◌==◌, some,
  List, [], ◌∷◌, length, ne→==, eq→==,
}
use riscv_lab.Str.{Memory, store, IsStr, strdup_from, strdup, strncpy_from, strncpy, memcpy}

-- a string survives a write outside its bytes and its NUL
pub IsStr-store :
    (m : Memory) (p a v : ℕ) (s : List ℕ)
    → (a < p) ⊎ (p + length s < a)
    → IsStr m p s
    → IsStr (store m a v) p s
IsStr-store m p a v [] (inl h) i = ground arith
IsStr-store m p a v [] (inr h) i = ground arith
IsStr-store m p a v (c ∷ s) (inl h) i =
    (ground arith, i.1, IsStr-store m (p + 1) a v s (inl (omega arith)) i.2)
IsStr-store m p a v (c ∷ s) (inr h) i =
    (ground arith, i.1, IsStr-store m (p + 1) a v s (inr (omega arith)) i.2)

-- The copy may start anywhere but inside the source, its NUL included.
abbrev pub Clear : ℕ → ℕ → List ℕ → Type 0
Clear dst src s = (dst ≤ src) ⊎ (src + length s < dst)

Clear-next : (dst src c : ℕ) (s : List ℕ) → Clear dst src (c ∷ s) → Clear (dst + 1) (src + 1) s
Clear-next dst src c s (inl h) = inl (omega arith)
Clear-next dst src c s (inr h) = inr (omega arith)

tail-IsStr :
    (m : Memory) (dst src c : ℕ) (s : List ℕ)
    → Clear dst src (c ∷ s)
    → IsStr m src (c ∷ s)
    → IsStr (store m dst (m src)) (src + 1) s
tail-IsStr m dst src c s (inl h) i = IsStr-store m (src + 1) dst (m src) s (inl (omega arith)) i.2
tail-IsStr m dst src c s (inr h) i = IsStr-store m (src + 1) dst (m src) s (inr (omega arith)) i.2

nonzero : (m : Memory) (p c : ℕ) → m p ≡ c → c ≢ 0 → (m p == 0) ≡ false
nonzero m p c e h = ne→== (m p) 0 (λ q. h (sym e ∙ q))

abbrev pair : ℕ → Memory → ℕ × Memory
pair k m = (k, m)

strdup_from_lem :
    (s : List ℕ) (fuel : ℕ) (m : Memory) (dst src len : ℕ)
    → IsStr m src s
    → Clear dst src s
    → length s < fuel
    → strdup_from fuel m dst src len ≡ some (len + length s + 1, memcpy m dst src (suc (length s)))
unfolding strdup_from memcpy
strdup_from_lem s zero m dst src len i cl h = absurd (omega arith)
strdup_from_lem [] (suc fuel) m dst src len i cl h =
    rw (eq→== (m src) 0 i) (ap (λ (k : ℕ). some (k, store m dst (m src))) (omega arith))
strdup_from_lem (c ∷ s) (suc fuel) m dst src len i cl h = rw (nonzero m src c i.0 i.1) (
    strdup_from_lem s fuel (store m dst (m src)) (dst + 1) (src + 1) (len + 1)
      (tail-IsStr m dst src c s cl i) (Clear-next dst src c s cl) (omega arith)
    ∙ ap (λ (k : ℕ). some (k, memcpy (store m dst (m src)) (dst + 1) (src + 1) (suc (length s))))
        (omega arith))

-- The string is shorter than the limit: it is copied with its NUL, and one more NUL follows.
strncpy_from_short :
    (s : List ℕ) (m : Memory) (dst src copied left : ℕ)
    → IsStr m src s
    → Clear dst src s
    → length s < left
    → strncpy_from m dst src copied left
      ≡ (copied + length s, store (memcpy m dst src (suc (length s))) (dst + length s + 1) 0)
unfolding strncpy_from memcpy
strncpy_from_short s m dst src copied zero i cl h = absurd (omega arith)
strncpy_from_short [] m dst src copied (suc left) i cl h =
    rw (eq→== (m src) 0 i)
      (ap₂ (λ (k j : ℕ). pair k (store (store m dst (m src)) j 0)) (omega arith) (omega arith))
strncpy_from_short (c ∷ s) m dst src copied (suc left) i cl h = rw (nonzero m src c i.0 i.1) (
    strncpy_from_short s (store m dst (m src)) (dst + 1) (src + 1) (copied + 1) left
      (tail-IsStr m dst src c s cl i) (Clear-next dst src c s cl) (omega arith)
    ∙ ap₂
        (λ (k j : ℕ).
          pair k (store (memcpy (store m dst (m src)) (dst + 1) (src + 1) (suc (length s))) j 0))
        (omega arith) (omega arith))

-- The string is as long as the limit or longer: its first bytes are copied, with no NUL.
strncpy_from_long :
    (s : List ℕ) (m : Memory) (dst src copied left : ℕ)
    → IsStr m src s
    → Clear dst src s
    → left ≤ length s
    → strncpy_from m dst src copied left ≡ (copied + left, memcpy m dst src left)
unfolding strncpy_from memcpy
strncpy_from_long s m dst src copied zero i cl h = ap (λ (k : ℕ). pair k m) (omega arith)
strncpy_from_long [] m dst src copied (suc left) i cl h = absurd (omega arith)
strncpy_from_long (c ∷ s) m dst src copied (suc left) i cl h = rw (nonzero m src c i.0 i.1) (
    strncpy_from_long s (store m dst (m src)) (dst + 1) (src + 1) (copied + 1) left
      (tail-IsStr m dst src c s cl i) (Clear-next dst src c s cl) (omega arith)
    ∙ ap (λ (k : ℕ). pair k (memcpy (store m dst (m src)) (dst + 1) (src + 1) left)) (omega arith))

module _ (m : Memory) (dst src : ℕ) (s : List ℕ) (i : IsStr m src s) (cl : Clear dst src s) where
  -- strdup returns the length of the string with its NUL, and copies just that many bytes, if the
  -- destination does not start inside the source. More fuel than the string has bytes is enough.
  pub strdup-memcpy :
      (fuel : ℕ)
      → length s < fuel
      → strdup fuel m dst src ≡ some (length s + 1, memcpy m dst src (suc (length s)))
  unfolding strdup
  strdup-memcpy fuel h =
      strdup_from_lem s fuel m dst src 0 i cl h
      ∙ ap (λ (k : ℕ). some (k, memcpy m dst src (suc (length s)))) (omega arith)

  -- strncpy of a string that is shorter than the limit returns its length, copies it with its NUL,
  -- and writes a second NUL in the byte behind that.
  pub strncpy_short :
      (len : ℕ)
      → length s < len
      → strncpy m dst src len
        ≡ (length s, store (memcpy m dst src (suc (length s))) (dst + length s + 1) 0)
  unfolding strncpy
  strncpy_short len h =
      strncpy_from_short s m dst src 0 len i cl h
      ∙ ap (λ (k : ℕ). pair k (store (memcpy m dst src (suc (length s))) (dst + length s + 1) 0))
          (omega arith)

  -- strncpy of a string that is as long as the limit or longer returns the limit and copies that
  -- many bytes, with no NUL behind them.
  pub strncpy_long :
      (len : ℕ) → len ≤ length s → strncpy m dst src len ≡ (len, memcpy m dst src len)
  unfolding strncpy
  strncpy_long len h =
      strncpy_from_long s m dst src 0 len i cl h
      ∙ ap (λ (k : ℕ). pair k (memcpy m dst src len)) (omega arith)

  -- A string that fills the buffer of `len` bytes exactly with its NUL makes strncpy write a NUL
  -- one byte past the end of the buffer.
  pub strncpy_overrun : (len : ℕ) → length s + 1 ≡ len → (strncpy m dst src len).1 (dst + len) ≡ 0
  strncpy_overrun len h = rw (strncpy_short len (omega arith)) (ground arith)
