-- ===== src/Nginx/Paths/Label.antt =====
-- Every label of a path is short and names no number.
use topsrv.Base.{none, some, true, ◌≤◌, Option, ◌≡◌, length, false, Bool, Text}
use topsrv.Nginx.Paths.Clean.{clean_after}

abbrev clean_option : Bool → Option Text → Bool
clean_option b none = true
clean_option b (some s) = clean_after b s

-- At most 240 bytes, and no digit behind a slash.
abbrev pub IsLabel : Text → Type 0
IsLabel s = (length s ≤ 240) × (clean_after false s ≡ true)
