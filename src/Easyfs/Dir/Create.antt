-- ===== src/Easyfs/Dir/Create.antt =====
-- What efs_d_creat adds to a directory is found there under its name.
use riscv_lab.Common.{
  ℕ, zero, suc, ◌+◌, ◌%◌, ◌^◌, ◌≡◌, ◌≢◌, refl, sym, ◌∙◌, ap, subst, true, false, Option, none, some,
  List, [], ◌∷◌, ◌++◌, ◌==◌, ==→eq, eq→==, ne→==, take, NotIn, Bool-cases, Option-cases, inl, inr,
}
use riscv_lab.Easyfs.Super.{Super}
use riscv_lab.Easyfs.Links.{FileType, MInode, efs_i_type, efs_i_new}
use riscv_lab.Easyfs.Dir.{
  dir_maxlen, same_bytes, same_name, is_dir, Dirent, Dentry, Tree, connect, fill_if, find_child,
  efs_d_name_check,
}
use riscv_lab.Easyfs.Dir.Edit.{
  set_inode, resize, dirent_size, mark_dirty_dir, add_entry, efs_d_creat,
}

same_take : (n : ℕ) (a : List ℕ) → same_bytes n (take n a) a ≡ true
same_take zero a = refl
same_take (suc n) [] = refl
same_take (suc n) (x ∷ xs) = rw (eq→== x x refl) (same_take n xs)

-- the names that `dents` and `dents'` give are the same
abbrev SameNames : (ℕ → Dentry) → (ℕ → Dentry) → List ℕ → Type 0
SameNames dents dents' [] = Unit {0}
SameNames dents dents' (d ∷ ds) =
    ((dents' d).entry.name ≡ (dents d).entry.name) × SameNames dents dents' ds

-- a child that is put behind children without the name is found by the name
find-append :
    (dents dents' : ℕ → Dentry) (ds : List ℕ) (d : ℕ) (name : List ℕ)
    → SameNames dents dents' ds
    → find_child dents ds name ≡ none
    → same_name (dents' d).entry.name name ≡ true
    → find_child dents' (ds ++ d ∷ []) name ≡ some d
unfolding find_child
find-append dents dents' [] d name s h e = rw e refl
find-append dents dents' (x ∷ ds) d name s h e =
    elim (Bool-cases (same_name (dents x).entry.name name)) [
      | inl hit ↦ absurd (found (rw hit at h))
      | inr miss ↦
          let m : same_name (dents' x).entry.name name ≡ false =
            ap (λ w. same_name w name) s.0 ∙ miss in
          rw m (find-append dents dents' ds d name s.1 (rw miss at h) e)
    ]
  where
    found : some x ≡ none → ⊥
    found q = cc

abbrev as_option : Option ℕ → Option ℕ
as_option o = o

abbrev given : Option ℕ → Tree → Option (Option ℕ × Tree)
given o t = some (o, t)

given_child : {d d' : ℕ} {t t' : Tree} → given (some d) t ≡ given (some d') t' → d ≡ d'
given_child {d} e = ap (λ r. elim r [ none ↦ d | some q ↦ elim q.0 [ none ↦ d | some x ↦ x ] ]) e

given_tree : {o o' : Option ℕ} {t t' : Tree} → given o t ≡ given o' t' → t ≡ t'
given_tree {o} {o'} {t} e = ap (λ r. elim r [ none ↦ t | some q ↦ q.1 ]) e

no_child : {d : ℕ} {t t' : Tree} → given none t ≡ given (some d) t' → ⊥
no_child e = absurd (none_some (ap (λ r. elim r [ none ↦ none | some q ↦ q.0 ]) e))
  where
    none_some : {x : ℕ} → as_option none ≡ some x → ⊥
    none_some q = cc

module _ (pd d : ℕ) (name : List ℕ) (kind : FileType) (t : Tree) (i : MInode) (sb : Super)
    (ds : List ℕ) (apart : d ≢ pd) (filled : (t.dents pd).filled ≡ true) where
  abbrev entry : Dirent
  entry = record { ino = i.inode.ino; kind = kind; name = take dir_maxlen name }

  abbrev based : Tree
  based = set_inode i.inode.ino (efs_i_type kind i) (record t { sb = sb; fresh = ds })

  abbrev made : Tree
  made =
      mark_dirty_dir pd
        (resize (λ n. (n + dirent_size) % 2 ^ 32) (t.dents pd).entry.ino (connect d entry pd based))

  made_self : (made.dents d).entry.name ≡ take dir_maxlen name
  made_self = rw (ne→== d pd apart, eq→== d d refl) refl

  made_children : (made.dents pd).children ≡ (t.dents pd).children ++ d ∷ []
  made_children = rw (eq→== pd pd refl, ne→== pd d (λ e. apart (sym e))) refl

  made_filled : (made.dents pd).filled ≡ true
  made_filled = rw (eq→== pd pd refl, ne→== pd d (λ e. apart (sym e))) filled

  made_name : (x : ℕ) → x ≢ d → (made.dents x).entry.name ≡ (t.dents x).entry.name
  made_name x ne = elim (Bool-cases (x == pd)) [
    | inl e ↦
        let q : x ≡ pd = ==→eq x pd e in
        rw (e, eq→== pd pd refl, ne→== pd d (λ p. apart (sym p)))
          (ap (λ y. (t.dents y).entry.name) (sym q))
    | inr n ↦ rw (n, ne→== x d ne) refl
  ]

  made_names : (xs : List ℕ) → NotIn d xs → SameNames t.dents made.dents xs
  made_names [] n = tt
  made_names (x ∷ xs) n = (made_name x (λ e. n.0 (sym e)), made_names xs n.1)

  found_again :
      (file : ℕ → List Dirent)
      → NotIn d (t.dents pd).children
      → find_child t.dents (t.dents pd).children name ≡ none
      → efs_d_name_check file pd name made ≡ some (some d, made)
  unfolding efs_d_name_check fill_if
  found_again file n h = rw made_filled (
      ap (λ o. some (o, made))
        (ap (λ cs. find_child made.dents cs name) made_children
          ∙ find-append t.dents made.dents (t.dents pd).children d name
              (made_names (t.dents pd).children n) h
              (ap (λ w. same_name w name) made_self ∙ same_take dir_maxlen name)))

  -- the entry is found, whatever the inode and the object that it was made with are called
  found_as :
      (file : ℕ → List Dirent) (d' : ℕ) (t' : Tree)
      → NotIn d (t.dents pd).children
      → find_child t.dents (t.dents pd).children name ≡ none
      → given (some d) made ≡ given (some d') t'
      → efs_d_name_check file pd name t' ≡ some (some d', t')
  found_as file d' t' n h e =
      let p : d ≡ d' = given_child e in
      let q : made ≡ t' = given_tree e in
      subst (λ x. efs_d_name_check file pd name x ≡ some (some d', x)) q
        (found_again file n h ∙ ap (λ y. some (some y, made)) p)

-- every object of the pool is new to the directory
abbrev pub Fresh : ℕ → List ℕ → List ℕ → Type 0
Fresh pd children [] = Unit {0}
Fresh pd children (d ∷ ds) = (d ≢ pd) × NotIn d children × Fresh pd children ds

added-found :
    (file : ℕ → List Dirent) (pd d : ℕ) (name : List ℕ) (kind : FileType) (t t' : Tree)
    → (t.dents pd).filled ≡ true
    → find_child t.dents (t.dents pd).children name ≡ none
    → (o : Option (MInode × Super)) (ds : List ℕ) → Fresh pd (t.dents pd).children ds
    → add_entry pd name kind t o ds ≡ some (some d, t')
    → efs_d_name_check file pd name t' ≡ some (some d, t')
added-found file pd d name kind t t' f h none ds n e = absurd (cc)
added-found file pd d name kind t t' f h (some (i, sb)) [] n e = absurd (cc)
added-found file pd d name kind t t' f h (some (i, sb)) (x ∷ ds) n e =
    found_as pd x name kind t i sb ds n.0 f file d t' n.1 h e

-- In a directory whose entries are in memory, with a pool of objects that are new to it: when
-- efs_d_creat gives a dentry, the name was not there before, and looking for it afterwards gives
-- that dentry and changes nothing.
pub efs_d_name_check-efs_d_creat :
    (file : ℕ → List Dirent) (pd d : ℕ) (name : List ℕ) (kind : FileType) (t t' : Tree)
    → (t.dents pd).filled ≡ true
    → Fresh pd (t.dents pd).children t.fresh
    → efs_d_creat file (some pd) name kind t ≡ some (some d, t')
    → (efs_d_name_check file pd name t ≡ some (none, t))
      × (efs_d_name_check file pd name t' ≡ some (some d, t'))
unfolding efs_d_creat efs_d_name_check fill_if
efs_d_name_check-efs_d_creat file pd d name kind t t' f n e =
    elim (Bool-cases (is_dir (t.dents pd).entry.kind)) [
      | inr plain ↦ absurd (refused (rw plain at e))
      | inl dir ↦ elim (Option-cases (find_child t.dents (t.dents pd).children name)) [
        | inr old ↦ absurd (taken old.0 (rw (dir, f, old.1) at e))
        | inl h ↦ (
          rw (f, h) refl,
          added-found file pd d name kind t t' f h (efs_i_new t.sb) t.fresh n (rw (dir, f, h) at e),
        )
      ]
    ]
  where
    refused : given none t ≡ given (some d) t' → ⊥
    refused q = absurd (no_child q)

    taken : (x : ℕ) → given none t ≡ given (some d) t' → ⊥
    taken x q = absurd (no_child q)
