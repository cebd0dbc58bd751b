-- ===== src/Updater/Version.antt =====
-- compareVersionedNames and extractVersion of internal/topsrv/updater.go.
pub mod Order
use topsrv.Base.{
  Bool, true, ◌||◌, List, [], ◌∷◌, none, some, Text, ℤ, pos, negsuc, sub_ℕ, sub_int64, eqb_ℤ,
  is_negative, is_empty, atoi, cut, split, trim_prefix, text_lt, codes, length, if◌then◌else◌, ◌≡◌,
  refl,
}

abbrev pub backup_prefix : Text
backup_prefix = codes "topsrv-"

unfoldable pub extract_version : Text → Text
unfolding cut trim_prefix
extract_version name = elim (cut backup_prefix name) [
  | none ↦ []
  | some (before, after) ↦ trim_prefix (codes "v") after
]

-- strings.Compare
unfoldable pub compare_text : Text → Text → ℤ
unfolding text_lt
compare_text a b = if text_lt a b then negsuc 0 else if text_lt b a then pos 1 else pos 0

-- The loop over the segments, and the difference of their numbers behind it.
unfoldable pub compare_parts : List Text → List Text → ℤ
compare_parts [] bs = sub_ℕ 0 (length bs)
compare_parts (a ∷ as') [] = sub_ℕ (length (a ∷ as')) 0
compare_parts (a ∷ as') (b ∷ bs) =
    let rest = compare_parts as' bs in
    let na = (atoi a).0 in let nb = (atoi b).0 in if eqb_ℤ na nb then rest else sub_int64 na nb

unfoldable pub compare_versioned_names : Text → Text → ℤ
compare_versioned_names a b =
    let va = extract_version a in
    let vb = extract_version b in
    if is_empty va || is_empty vb
    then compare_text a b
    else compare_parts (split b'.' va) (split b'.' vb)

abbrev pub older : Text → Text → Bool
older a b = is_negative (compare_versioned_names a b)

nine_before_ten : older (codes "topsrv-0.0.9") (codes "topsrv-v0.0.10") ≡ true
unfolding compare_versioned_names extract_version compare_text compare_parts split atoi sub_int64
nine_before_ten = refl
