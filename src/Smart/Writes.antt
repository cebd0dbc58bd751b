-- ===== src/Smart/Writes.antt =====
-- The attribute that the written bytes are read from.
use topsrv.Base.{
  All-unsort, ◌-◌, ap, same, All-map, ℕ, Text, Option, some, none, List, [], ◌∷◌, ◌≡◌, refl, ◌⊎◌,
  inl, inr, All, sort, IsSorted, All-sort, sort-IsSorted, Bool-cases, eqb, ltb, leb, ◌||◌,
  if◌then◌else◌, ◌*◌, ◌<◌, ◌≤◌, ◌^◌, ◌/◌, arith, false,
}
use topsrv.Smart.{
  HostWriteAttr, WriteUnit, host_write_attrs, find_unit, unit_size, scaled, written_by, or_next,
  first_written, by_id, host_bytes_written, sector_or_default,
}
use native.Mathlib.Nat.{div-lt_iff_lt-mul, mod-eq_of_lt}

abbrev pub Member : HostWriteAttr → List HostWriteAttr → Type 0
Member a [] = ⊥
Member a (b ∷ bs) = (a ≡ b) ⊎ Member a bs

-- The product itself, where it is above 0 and below 2^64.
abbrev pub exact_product : ℕ → ℕ → Option ℕ
exact_product size raw = if eqb raw 0 || leb (2 ^ 64) (raw * size) then none else some (raw * size)

abbrev pub exact_by : ℕ → HostWriteAttr → Option WriteUnit → Option ℕ
exact_by sector a none = none
exact_by sector a (some u) = exact_product (unit_size sector u) a.value_raw

-- What an attribute says that the drive has written.
abbrev pub exact : ℕ → HostWriteAttr → Option ℕ
exact sector a = exact_by sector a (find_unit a.name host_write_attrs)

abbrev pub Written : ℕ → List HostWriteAttr → Option ℕ → Type 0
Written sector attrs none = All (λ a. exact sector a ≡ none) attrs
Written sector attrs (some n) =
    (a : HostWriteAttr) × Member a attrs
    × (exact sector a ≡ some n)
    × All (λ b. (exact sector b ≡ none) ⊎ (a.id ≤ b.id)) attrs

-- The division finds the products that do not fit.
overflow_lem : (size raw : ℕ) → 0 < size → ltb ((2 ^ 64 - 1) / size) raw ≡ leb (2 ^ 64) (raw * size)
overflow_lem size raw pos =
    let (to, from) = div-lt_iff_lt-mul {k = size} {x = 2 ^ 64 - 1} {y = raw} pos in
    elim (Bool-cases (ltb ((2 ^ 64 - 1) / size) raw)) [
      | inl e ↦ let h = to (ground (arith, e)) in ground (arith, e, h)
      | inr e ↦ elim (Bool-cases (leb (2 ^ 64) (raw * size))) [
        | inl f ↦ let h = from (ground (arith, f)) in ground (arith, e, h)
        | inr f ↦ rw (e, f) refl
      ]
    ]

scaled_lem : (size raw : ℕ) → 0 < size → scaled size raw ≡ exact_product size raw
unfolding scaled
scaled_lem size raw pos = elim (Bool-cases (eqb raw 0)) [
  | inl z ↦ rw z refl
  | inr z ↦ elim (Bool-cases (leb (2 ^ 64) (raw * size))) [
    | inl e ↦ rw (z, overflow_lem size raw pos, e) refl
    | inr e ↦ rw (z, overflow_lem size raw pos, e) (ap some (mod-eq_of_lt (ground (arith, e))))
  ]
]

abbrev PosSize : ℕ → Option WriteUnit → Type 0
PosSize sector none = Unit
PosSize sector (some u) = 0 < unit_size sector u

find_unit-pos :
    (sector : ℕ) (name : Text) (us : List (Text × WriteUnit))
    → All (λ (k, u). 0 < unit_size sector u) us
    → PosSize sector (find_unit name us)
unfolding find_unit
find_unit-pos sector name [] h = tt
find_unit-pos sector name ((k, u) ∷ us) (p, h) = elim (Bool-cases (same k name)) [
  | inl e ↦ rw e p
  | inr e ↦ rw e (find_unit-pos sector name us h)
]

written_by-exact :
    (sector : ℕ) (a : HostWriteAttr) (o : Option WriteUnit)
    → PosSize sector o
    → written_by sector a o ≡ exact_by sector a o
written_by-exact sector a none h = refl
written_by-exact sector a (some u) h = scaled_lem (unit_size sector u) a.value_raw h

written-exact :
    (sector : ℕ) (a : HostWriteAttr)
    → 0 < sector
    → written_by sector a (find_unit a.name host_write_attrs) ≡ exact sector a
written-exact sector a pos = written_by-exact sector a (find_unit a.name host_write_attrs) (
    find_unit-pos sector a.name host_write_attrs
      (pos, (pos, (omega arith, (omega arith, (omega arith, (omega arith, (omega arith, tt))))))))

-- The first that says something, among sorted ones that belong to a list.
module _ (sector : ℕ) (pos : 0 < sector) (whole : List HostWriteAttr) where
  abbrev Found : List HostWriteAttr → Option ℕ → Type 0
  Found attrs none = All (λ a. exact sector a ≡ none) attrs
  Found attrs (some n) =
      (a : HostWriteAttr) × Member a whole
      × (exact sector a ≡ some n)
      × All (λ b. (exact sector b ≡ none) ⊎ (a.id ≤ b.id)) attrs

  found_first :
      (a : HostWriteAttr) (attrs : List HostWriteAttr) (o : Option ℕ)
      → Member a whole
      → All (λ b. by_id b a ≡ false) attrs
      → exact sector a ≡ o
      → (rest : Option ℕ) → Found attrs rest
      → Found (a ∷ attrs) (or_next o rest)
  found_first a attrs (some n) here later e rest h = (
    a,
    here,
    e,
    (
      inr (omega arith),
      All-map (λ b. by_id b a ≡ false) (λ b. (exact sector b ≡ none) ⊎ (a.id ≤ b.id))
          (λ b k. inr (ground (arith, k))) attrs later,
    ),
  )
  found_first a attrs none here later e none h = (e, h)
  found_first a attrs none here later e (some n) (b, within, f, below) =
      (b, within, f, (inl e, below))

  first_written_lem :
      (attrs : List HostWriteAttr)
      → All (λ a. Member a whole) attrs
      → IsSorted by_id attrs
      → Found attrs (first_written sector attrs)
  unfolding first_written
  first_written_lem [] within sorted = tt
  first_written_lem (a ∷ attrs) (here, within) (later, sorted) = rw (written-exact sector a pos) (
      found_first a attrs (exact sector a) here later refl (first_written sector attrs)
        (first_written_lem attrs within sorted))

All-Member :
    (xs whole : List HostWriteAttr)
    → ((a : HostWriteAttr) → Member a xs → Member a whole)
    → All (λ a. Member a whole) xs
All-Member [] whole h = tt
All-Member (x ∷ xs) whole h = (h x (inl refl), All-Member xs whole (λ a m. h a (inr m)))

found-Written :
    (sector : ℕ) (pos : 0 < sector) (attrs : List HostWriteAttr) (o : Option ℕ)
    → Found sector pos attrs (sort by_id attrs) o
    → Written sector attrs o
found-Written sector pos attrs none h = All-unsort by_id (λ a. exact sector a ≡ none) attrs h
found-Written sector pos attrs (some n) (a, within, e, below) =
    (a, within, e, All-unsort by_id (λ b. (exact sector b ≡ none) ⊎ (a.id ≤ b.id)) attrs below)

-- The bytes that are reported are those of the attribute of the lowest number among the ones that say
-- something, in whatever order the attributes come; nothing is reported only where none says
-- something. An attribute says something where its name is in the table and its raw value times the
-- unit, with 512 for a sector of size 0, is above 0 and below 2^64; the bytes are that product.
pub host_bytes_written-Written :
    (attrs : List HostWriteAttr) (sector_size : ℕ)
    → Written (sector_or_default sector_size) attrs (host_bytes_written attrs sector_size)
unfolding host_bytes_written
host_bytes_written-Written attrs sector_size =
    let sector = sector_or_default sector_size in
    let pos : 0 < sector = ground arith in
    let members = All-Member attrs attrs (λ a m. m) in
    found-Written sector pos attrs (first_written sector (sort by_id attrs)) (
      first_written_lem sector pos attrs (sort by_id attrs)
        (All-sort by_id (λ a. Member a attrs) attrs members)
        (sort-IsSorted by_id (λ x y z h k. ground (arith, h, k)) (λ x y h. ground (arith, h))
          attrs))
