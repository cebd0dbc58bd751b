-- ===== src/Packages/Rpm/History.antt =====
-- The dnf history is read as it means to be: the first reason, the latest repository.
use topsrv.Base.{
  ◌∙◌, keep, ap, refl, inr, same_eq, inl, Bool-cases, is_empty, [], arith, true, ◌||◌, eqb, same,
  none, ◌≡◌, ◌∷◌, false, if◌then◌else◌, some, Option, Bool, Text, List, ℕ,
}
use topsrv.Packages.Snapshot.{by_arch}
use topsrv.Packages.Rpm.{
  entry_or, latest_of, add_row, Row, Entry, find_entry, put_entry, dnf_action_install,
}

abbrev pub of_key : Text → Row → Bool
of_key key row = same (by_arch row.name row.arch) key

abbrev pub is_install : Row → Bool
is_install row = eqb row.action dnf_action_install

-- The reason of the first install among some rows.
abbrev pub first_reason : List Row → Option ℕ
first_reason [] = none
first_reason (row ∷ rows) = if is_install row then some row.reason else first_reason rows

-- The last repository with a name, or what was there before.
abbrev pub last_repo : List Row → Text → Text
last_repo [] repo = repo
last_repo (row ∷ rows) repo = last_repo rows (if is_empty row.repo then repo else row.repo)

abbrev pub reason_or : Option ℕ → ℕ → ℕ
reason_or none d = d
reason_or (some r) d = r

abbrev pub found : Option ℕ → Bool
found none = false
found (some r) = true

-- An entry and the rows that follow it.
abbrev after : List Row → Entry → Entry
after rows e = record {
  repo = last_repo rows e.repo;
  initial_reason =
      if e.has_install then e.initial_reason else reason_or (first_reason rows) e.initial_reason;
  has_install = e.has_install || found (first_reason rows);
}

find-put :
    (key k : Text) (e : Entry) (m : List (Text × Entry))
    → find_entry key (put_entry k e m) ≡ (if same k key then some e else find_entry key m)
unfolding find_entry put_entry
find-put key k e [] = ground arith
find-put key k e ((k', old) ∷ m) = elim (Bool-cases (same k' k)) [
  | inl t ↦ rw (t) (let eq : k' ≡ k = same_eq k' k t in rw eq (ground (arith)))
  | inr f ↦ rw (f) (elim (Bool-cases (same k' key)) [
    | inl t ↦
        let eq : k' ≡ key = same_eq k' key t in
        rw (t) (elim (Bool-cases (same k key)) [
          | inl t' ↦ absurd (cc (f, t, same_eq k key t'))
          | inr f' ↦ rw f' refl
        ])
    | inr f' ↦ rw (f', find-put key k e m) refl
  ])
]

after-repo :
    (row : Row) (rows : List Row) (e : Entry)
    → last_repo rows (add_row row e).repo ≡ last_repo (row ∷ rows) e.repo
unfolding add_row
after-repo row rows e = ap (last_repo rows) (ground arith)

after-reason :
    (row : Row) (rows : List Row) (e : Entry)
    → (after rows (add_row row e)).initial_reason ≡ (after (row ∷ rows) e).initial_reason
unfolding add_row
after-reason row rows e = ground arith

after-install :
    (row : Row) (rows : List Row) (e : Entry)
    → (after rows (add_row row e)).has_install ≡ (after (row ∷ rows) e).has_install
unfolding add_row
after-install row rows e = ground arith

after-add :
    (row : Row) (rows : List Row) (e : Entry) → after rows (add_row row e) ≡ after (row ∷ rows) e
after-add row rows e = λ i. record {
  repo = after-repo row rows e i;
  initial_reason = after-reason row rows e i;
  has_install = after-install row rows e i;
}

latest_of-after :
    (key : Text) (rows : List Row) (m : List (Text × Entry))
    → entry_or (find_entry key (latest_of rows m))
      ≡ after (keep (of_key key) rows) (entry_or (find_entry key m))
unfolding latest_of
latest_of-after key [] m = ground arith
latest_of-after key (row ∷ rows) m =
    let k = by_arch row.name row.arch in
    let e = add_row row (entry_or (find_entry k m)) in
    latest_of-after key rows (put_entry k e m) ∙ (elim (Bool-cases (same k key)) [
      | inl t ↦
          let eq : k ≡ key = same_eq k key t in
          rw (find-put key k e m, t)
            (rw eq (after-add row (keep (of_key key) rows) (entry_or (find_entry key m))))
      | inr f ↦ rw (find-put key k e m, f) refl
    ])

-- What the walk of the dnf history keeps of a package, by name and architecture, is the reason of the
-- first row that installs it and the last repository that one of its rows names: whatever rows of
-- other packages stand between, and 0, no install and no repository where there is no such row.
pub latest_of_lem :
    (key : Text) (rows : List Row)
    → entry_or (find_entry key (latest_of rows [])) ≡ record {
      repo = last_repo (keep (of_key key) rows) [];
      initial_reason = reason_or (first_reason (keep (of_key key) rows)) 0;
      has_install = found (first_reason (keep (of_key key) rows));
    }
unfolding find_entry
latest_of_lem key rows = latest_of-after key rows []
