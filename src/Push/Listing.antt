-- ===== src/Push/Listing.antt =====
-- Directories whose files were written in the order of their names.
use topsrv.Base.{
  inr, text_lt_irrefl, same_eq, subst, inl, arith, same, Bool-cases, All-append, refl, same_refl,
  true, keep, [], ◌++◌, All, text_lt, ◌≡◌, ◌∷◌, List, insert, sort, Text,
}
use topsrv.Push.State.{File, has_suffix}
use topsrv.Push.{by_name, other_than, matches}

abbrev pub After : Text → File → Type 0
After name f = text_lt name f.name ≡ true

abbrev pub Before : Text → File → Type 0
Before name f = text_lt f.name name ≡ true

abbrev pub Increasing : List File → Type 0
Increasing [] = Unit
Increasing (f ∷ fs) = All (After f.name) fs × Increasing fs

insert_first : (f : File) (fs : List File) → All (After f.name) fs → insert by_name f fs ≡ f ∷ fs
unfolding insert
insert_first f [] h = refl
insert_first f (g ∷ fs) (h, _) = rw h refl

pub sort-Increasing : (fs : List File) → Increasing fs → sort by_name fs ≡ fs
unfolding sort
sort-Increasing [] h = refl
sort-Increasing (f ∷ fs) (h, k) = rw (sort-Increasing fs k) (insert_first f fs h)

After-other : (name : Text) (f : File) → After name f → other_than name f ≡ true
After-other name f h = elim (Bool-cases (same f.name name)) [
  | inl e ↦
      let bad : text_lt name name ≡ true =
        subst (λ n. text_lt name n ≡ true) (same_eq f.name name e) h in
      absurd (cc (bad, text_lt_irrefl name))
  | inr e ↦ rw e refl
]

Before-other : (name : Text) (f : File) → Before name f → other_than name f ≡ true
Before-other name f h = elim (Bool-cases (same f.name name)) [
  | inl e ↦
      let bad : text_lt name name ≡ true =
        subst (λ n. text_lt n name ≡ true) (same_eq f.name name e) h in
      absurd (cc (bad, text_lt_irrefl name))
  | inr e ↦ rw e refl
]

keep-After : (name : Text) (fs : List File) → All (After name) fs → keep (other_than name) fs ≡ fs
keep-After name [] h = refl
keep-After name (f ∷ fs) (h, k) = rw (After-other name f h, keep-After name fs k) refl

pub keep-Before :
    (name : Text) (fs : List File) → All (Before name) fs → keep (other_than name) fs ≡ fs
keep-Before name [] h = refl
keep-Before name (f ∷ fs) (h, k) = rw (Before-other name f h, keep-Before name fs k) refl

-- The removal of the first file.
pub keep_rest :
    (f : File) (fs : List File) → Increasing (f ∷ fs) → keep (other_than f.name) (f ∷ fs) ≡ fs
keep_rest f fs (h, k) = rw (same_refl f.name) (keep-After f.name fs h)

pub Increasing-append :
    (f : File) (fs : List File)
    → All (Before f.name) fs
    → Increasing fs
    → Increasing (fs ++ (f ∷ []))
Increasing-append f [] h k = (tt, tt)
Increasing-append f (g ∷ fs) (h, hs) (k, ks) =
    (All-append (After g.name) fs (f ∷ []) k (h, tt), Increasing-append f fs hs ks)

pub keep-matches :
    (ext : Text) (fs : List File) → All (λ f. matches ext f ≡ true) fs → keep (matches ext) fs ≡ fs
keep-matches ext [] h = refl
keep-matches ext (f ∷ fs) (h, k) = rw (h, keep-matches ext fs k) refl

pub has_suffix-append : (s suf : Text) → has_suffix suf (s ++ suf) ≡ true
unfolding has_suffix
has_suffix-append [] [] = refl
has_suffix-append [] (c ∷ suf) = rw (same_refl (c ∷ suf)) refl
has_suffix-append (c ∷ s) suf = ground (arith, has_suffix-append s suf)
