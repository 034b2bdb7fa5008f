-- ===== src/Easyfs/Dir/Path.antt =====
-- efs_d_named goes from directory to directory along the names of a path.
use riscv_lab.Common.{
  ℕ, zero, suc, ◌+◌, ◌≤◌, ◌<◌, ◌≡◌, ◌≢◌, refl, sym, ◌∙◌, ap, Option, none, some, List, [], ◌∷◌,
  ◌++◌, append_assoc, append-nil, fun_ext, arith, length, ne→==, take, NotIn, Bool-cases, inl, inr,
}
use riscv_lab.Easyfs.Dir.{
  slash, Dirent, Tree, connect, add_hash, fill_entries, mark_filled, fill_if, checked,
  efs_d_name_check,
}
use riscv_lab.Easyfs.Dir.Named.{
  enter_dir, last_name, named_loop, max_path_len, root_dentry, find_hashed, named, as_named,
  efs_d_named,
}

-- the names of the directories, each with a slash behind it, and then the last name
abbrev pub join : List (List ℕ) → List ℕ → List ℕ
join [] last = last
join (n ∷ ns) last = n ++ slash ∷ join ns last

abbrev pub NoSlash : List (List ℕ) → Type 0
NoSlash [] = Unit {0}
NoSlash (n ∷ ns) = NotIn slash n × NoSlash ns

-- One lookup for each directory, then the last name.
abbrev pub walk_names :
    (ℕ → List Dirent) → List (List ℕ) → List ℕ → ℕ → Tree → Option (Option ℕ × Tree)
walk_names file [] last d t = last_name file last d t
walk_names file (n ∷ ns) last d t =
    enter_dir (walk_names file ns last) (efs_d_name_check file d n t)

take_all : (n : ℕ) (xs : List ℕ) → length xs ≤ n → take n xs ≡ xs
take_all zero [] h = refl
take_all zero (x ∷ xs) h = absurd (omega arith)
take_all (suc n) [] h = refl
take_all (suc n) (x ∷ xs) h = ap (λ ys. x ∷ ys) (take_all n xs (omega arith))

KeepsBuffers : Tree → Option Tree → Type 0
KeepsBuffers t none = Unit {0}
KeepsBuffers t (some t') = t'.buffers ≡ t.buffers

fill_entries-KeepsBuffers :
    (es : List Dirent) (pd : ℕ) (ds : List ℕ) (t : Tree) → KeepsBuffers t (fill_entries es pd ds t)
unfolding fill_entries KeepsBuffers
fill_entries-KeepsBuffers [] pd ds t = refl
fill_entries-KeepsBuffers (e ∷ es) pd [] t = tt
fill_entries-KeepsBuffers (e ∷ es) pd (d ∷ ds) t =
    fill_entries-KeepsBuffers es pd ds (add_hash d (connect d e pd t))

filled-KeepsBuffers :
    (t : Tree) (pd : ℕ) (o : Option Tree) → KeepsBuffers t o → KeepsBuffers t (mark_filled pd o)
unfolding KeepsBuffers
filled-KeepsBuffers t pd none k = k
filled-KeepsBuffers t pd (some t') k = k

-- looking for a name neither takes nor gives back a path buffer
check_buffers :
    (file : ℕ → List Dirent) (pd : ℕ) (name : List ℕ) (t t' : Tree) (o : Option ℕ)
    → efs_d_name_check file pd name t ≡ some (o, t')
    → t'.buffers ≡ t.buffers
unfolding efs_d_name_check fill_if KeepsBuffers
check_buffers file pd name t t' o e = elim (Bool-cases (t.dents pd).filled) [
  | inl f ↦ kept (some t) refl (rw f at e)
  | inr f ↦
      kept (mark_filled pd (fill_entries (file (t.dents pd).entry.ino) pd t.fresh t))
        (filled-KeepsBuffers t pd (fill_entries (file (t.dents pd).entry.ino) pd t.fresh t)
          (fill_entries-KeepsBuffers (file (t.dents pd).entry.ino) pd t.fresh t))
        (rw f at e)
]
  where
    kept :
        (r : Option Tree)
        → KeepsBuffers t r
        → checked pd name r ≡ some (o, t')
        → t'.buffers ≡ t.buffers
    kept none k q = cc
    kept (some u) k q = ap (λ x. elim x [ none ↦ 0 | some p ↦ p.1.buffers ]) (sym q) ∙ k

module _ (file : ℕ → List Dirent) where
  step_byte :
      (c : ℕ) (cs name : List ℕ) (d : ℕ) (t : Tree)
      → c ≢ slash
      → named_loop file (c ∷ cs) name d t ≡ named_loop file cs (name ++ c ∷ []) d t
  unfolding named_loop
  step_byte c cs name d t ne = rw (ne→== c slash ne, named_loop) refl

  -- the bytes of a name are collected
  collect :
      (n name rest : List ℕ) (d : ℕ) (t : Tree)
      → NotIn slash n
      → named_loop file (n ++ rest) name d t ≡ named_loop file rest (name ++ n) d t
  collect [] name rest d t h = rw append-nil refl
  collect (c ∷ n) name rest d t h =
      step_byte c (n ++ rest) name d t (λ e. h.0 (sym e))
      ∙ collect n (name ++ c ∷ []) rest d t h.1
      ∙ ap (λ w. named_loop file rest w d t) (append_assoc name (c ∷ []) n)

  loop-walk :
      (ns : List (List ℕ)) (last : List ℕ)
      → NoSlash ns
      → NotIn slash last
      → (d : ℕ) (t : Tree) → named_loop file (join ns last) [] d t ≡ walk_names file ns last d t
  unfolding named_loop
  loop-walk [] last h k d t =
      ap (λ w. named_loop file w [] d t) (sym (append-nil last)) ∙ collect last [] [] d t k
  loop-walk (n ∷ ns) last h k d t =
      collect n [] (slash ∷ join ns last) d t h.0
      ∙ ap (λ f. enter_dir f (efs_d_name_check file d n t))
          (fun_ext λ d'. fun_ext λ t'. loop-walk ns last h.1 k d' t')

  pub efs_d_named-walk :
      (strhash : List ℕ → ℕ) (ns : List (List ℕ)) (last : List ℕ) (t : Tree)
      → NoSlash ns
      → NotIn slash last
      → length (join ns last) < max_path_len
      → find_hashed strhash t.dents t.hashed (slash ∷ join ns last) ≡ none
      → efs_d_named file strhash (slash ∷ join ns last) t
        ≡ as_named (walk_names file ns last root_dentry (record t { buffers = t.buffers + 1 }))
  unfolding efs_d_named
  efs_d_named-walk strhash ns last t h k fits new =
      rw (new, take_all 255 (join ns last) (omega arith))
        (ap as_named (loop-walk ns last h k root_dentry (record t { buffers = t.buffers + 1 })))

  -- For a path that starts with a slash, fits the buffer, is not found among the hashed names and
  -- whose first directory does not exist, NULL is returned and the buffer that the path was copied
  -- to is not given back.
  pub efs_d_named-leaks :
      (strhash : List ℕ → ℕ) (n : List ℕ) (ns : List (List ℕ)) (last : List ℕ) (t t' : Tree)
      → NoSlash (n ∷ ns)
      → NotIn slash last
      → length (join (n ∷ ns) last) < max_path_len
      → find_hashed strhash t.dents t.hashed (slash ∷ join (n ∷ ns) last) ≡ none
      → efs_d_name_check file root_dentry n (record t { buffers = t.buffers + 1 }) ≡ some (none, t')
      → (efs_d_named file strhash (slash ∷ join (n ∷ ns) last) t ≡ named none t')
        × (t'.buffers ≡ t.buffers + 1)
  efs_d_named-leaks strhash n ns last t t' h k fits new missing = (
    efs_d_named-walk strhash (n ∷ ns) last t h k fits new
        ∙ ap (λ r. as_named (enter_dir (walk_names file ns last) r)) missing,
    check_buffers file root_dentry n (record t { buffers = t.buffers + 1 }) t' none missing,
  )
