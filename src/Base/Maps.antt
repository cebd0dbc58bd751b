-- ===== src/Base/Maps.antt =====
-- map[string]string as a list of its entries, one for each key.
use mathlib.Core.Path.{◌≡◌, refl}
use mathlib.Core.List.{List, [], ◌∷◌}
use native.Mathlib.Omega.{arith}
use topsrv.Base.Tests.{if◌then◌else◌}
use topsrv.Base.Strings.{Text, same, same_refl}

abbrev pub Fields : Type 0
Fields = List (Text × Text)

-- m[key], "" for a key that is missing
unfoldable pub lookup : Text → Fields → Text
lookup key [] = []
lookup key ((k, v) ∷ m) = if same k key then v else lookup key m

-- m[key] = value
unfoldable pub store_field : Text → Text → Fields → Fields
store_field key value [] = (key, value) ∷ []
store_field key value ((k, v) ∷ m) =
    let rest = store_field key value m in if same k key then (k, value) ∷ m else (k, v) ∷ rest

pub lookup-store : (key value : Text) (m : Fields) → lookup key (store_field key value m) ≡ value
unfolding lookup store_field
lookup-store key value [] = rw (same_refl key) refl
lookup-store key value ((k, v) ∷ m) = ground (arith, lookup-store key value m)
