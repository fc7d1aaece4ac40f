-- ===== src/Postgres/Polls/Updates.antt =====
-- An update of the rows of one id and one version, for any assignment of columns.
use televote.Prelude.{
  ℕ, ◌≡◌, ◌≢◌, refl, Bool, true, false, List, [], ◌∷◌, none, some, arith, ==_iff, ◌==◌,
  if◌then◌else◌, Bool-cases, Option-cases, inl, inr, sym, ap, subst, ◌∙◌,
}
use televote.Prelude.Int.{pos, eq_of_parts}
use televote.Errors.{Result, ok, err, Failure, not_found, version_conflict}
use televote.Postgres.Polls.{
  Row, row_of, id_taken, matches, update, updates, versioned_outcome, versioned,
}

-- The primary key: no two rows have one id.
abbrev pub UniqueIds : List Row → Type 0
UniqueIds [] = Unit {0}
UniqueIds (row ∷ rows) = (row_of row.id rows ≡ none) × UniqueIds rows

-- An assignment of columns that leaves the id.
abbrev pub KeepsId : (Row → Row) → Type 0
KeepsId set = (row : Row) → (set row).id ≡ row.id

updates-none :
    (id version : ℕ) (rows : List Row)
    → row_of id rows ≡ none
    → (updates id version rows ≡ false) × (id_taken id rows ≡ false)
unfolding updates row_of id_taken
updates-none id version [] h = (refl, refl)
updates-none id version (row ∷ rows) h = let ih = updates-none id version rows in ground arith

update-none :
    (id version : ℕ) (set : Row → Row) (rows : List Row)
    → row_of id rows ≡ none
    → update id version set rows ≡ rows
unfolding update row_of
update-none id version set [] h = refl
update-none id version set (row ∷ rows) h = let ih = update-none id version set rows in ground arith

updates-some :
    (id version : ℕ) (rows : List Row) {row : Row}
    → UniqueIds rows
    → row_of id rows ≡ some row
    → (updates id version rows ≡ matches id version row) × (id_taken id rows ≡ true)
unfolding updates row_of id_taken
updates-some id version [] u h = absurd cc
updates-some id version (r ∷ rows) {row} u h = elim (Bool-cases (r.id == id)) [
  | inl e ↦
      let none_left =
        updates-none id version rows
          (subst (λ i. row_of i rows ≡ none) ((==_iff r.id id).0 e) u.0) in
      ground arith
  | inr e ↦ let ih = updates-some id version rows {row = row} u.1 in ground arith
]

id-assigned :
    (b : Bool) (set : Row → Row) (row : Row)
    → KeepsId set
    → (if b then set row else row).id ≡ row.id
id-assigned true set row keeps = keeps row
id-assigned false set row keeps = refl

row_of-hit : (i : ℕ) (row : Row) (rows : List Row) → row.id ≡ i → row_of i (row ∷ rows) ≡ some row
unfolding row_of
row_of-hit i row rows h = ground (arith, (==_iff row.id i).1)

pub row_of-miss :
    (i : ℕ) (row : Row) (rows : List Row)
    → (row.id == i) ≡ false
    → row_of i (row ∷ rows) ≡ row_of i rows
unfolding row_of
row_of-miss i row rows h = rw h refl

some-same : {a b : Row} → some a ≡ some b → a ≡ b
some-same e = cc

-- What the row of an id becomes.
pub row_of-update :
    (id version : ℕ) (set : Row → Row) (rows : List Row) (row : Row)
    → KeepsId set
    → row_of id rows ≡ some row
    → row_of id (update id version set rows)
      ≡ some (if matches id version row then set row else row)
unfolding update
row_of-update id version set [] row keeps h = unfold row_of in absurd cc
row_of-update id version set (r ∷ rows) row keeps h =
    let kept = id-assigned (matches id version r) set r keeps in
    elim (Bool-cases (r.id == id)) [
      | inl e ↦
          let here = (==_iff r.id id).0 e in
          row_of-hit id _ (update id version set rows) (kept ∙ here)
          ∙ ap (λ x. some (if matches id version x then set x else x))
              (some-same (sym (row_of-hit id r rows here) ∙ h))
      | inr e ↦
          row_of-miss id _ (update id version set rows) (ap (λ i. i == id) kept ∙ e)
          ∙ row_of-update id version set rows row keeps (sym (row_of-miss id r rows e) ∙ h)
    ]

pub row_of-others :
    (id version j : ℕ) (set : Row → Row) (rows : List Row)
    → KeepsId set
    → j ≢ id
    → row_of j (update id version set rows) ≡ row_of j rows
unfolding update
row_of-others id version j set [] keeps other = refl
row_of-others id version j set (r ∷ rows) keeps other =
    let ih = row_of-others id version j set rows keeps other in
    let kept = id-assigned (matches id version r) set r keeps in
    elim (Bool-cases (r.id == j)) [
      | inl e ↦
          let here = (==_iff r.id j).0 e in
          let spared : matches id version r ≡ false = ground arith in
          rw spared
            (row_of-hit j r (update id version set rows) here ∙ sym (row_of-hit j r rows here))
      | inr e ↦
          row_of-miss j _ (update id version set rows) (ap (λ i. i == j) kept ∙ e)
          ∙ ih
          ∙ sym (row_of-miss j r rows e)
    ]

pub update-kept :
    (id version : ℕ) (set : Row → Row) (rows : List Row)
    → updates id version rows ≡ false
    → update id version set rows ≡ rows
unfolding updates update
update-kept id version set [] h = refl
update-kept id version set (row ∷ rows) h = let ih = update-kept id version set rows in ground arith

-- What an update under a version does, in terms of the row of the id.
pub record Locked (id version : ℕ) (set : Row → Row) (rows : List Row)
    (answer : Result (Unit {0}) × List Row) : Type 0 where
  pub missing : row_of id rows ≡ none → answer ≡ (err (not_found ∷ []), rows)
  pub fresh :
      (row : Row)
      → row_of id rows ≡ some row
      → row.version ≡ pos version
      → (answer.0 ≡ ok tt) × (row_of id answer.1 ≡ some (set row))
  pub stale :
      (row : Row)
      → row_of id rows ≡ some row
      → row.version ≢ pos version
      → answer ≡ (err (version_conflict ∷ []), rows)
  pub others : (j : ℕ) → j ≢ id → row_of j answer.1 ≡ row_of j rows

pub row_of-id : (id : ℕ) (rows : List Row) {row : Row} → row_of id rows ≡ some row → row.id ≡ id
unfolding row_of
row_of-id id [] h = absurd cc
row_of-id id (r ∷ rows) {row} h = elim (Bool-cases (r.id == id)) [
  | inl e ↦
      subst (λ x. x.id ≡ id) (some-same (sym (row_of-hit id r rows ((==_iff r.id id).0 e)) ∙ h))
        ((==_iff r.id id).0 e)
  | inr e ↦ row_of-id id rows {row = row} (ground arith)
]

matches_fresh :
    (id version : ℕ) (row : Row)
    → row.id ≡ id
    → row.version ≡ pos version
    → matches id version row ≡ true
matches_fresh id version row same e = ground arith

matches_stale :
    (id version : ℕ) (row : Row) → row.version ≢ pos version → matches id version row ≡ false
matches_stale id version row h = elim (Bool-cases (matches id version row)) [
  | inl e ↦ absurd (h (eq_of_parts row.version (pos version) (ground arith)))
  | inr e ↦ e
]

pub versioned-Locked :
    (id version : ℕ) (set : Row → Row) (rows : List Row)
    → KeepsId set
    → UniqueIds rows
    → Locked id version set rows (versioned none id version set rows)
unfolding versioned versioned_outcome
versioned-Locked id version set rows keeps u = record {
  missing = λ h.
      let (a, b) = updates-none id version rows h in
      rw (a, b, update-none id version set rows h) refl;
  fresh = λ row h e.
      let m = matches_fresh id version row (row_of-id id rows h) e in
      let (a, b) = updates-some id version rows u h in
      (rw (a, m) refl, row_of-update id version set rows row keeps h ∙ rw m refl);
  stale = λ row h e.
      let m = matches_stale id version row e in
      let (a, b) = updates-some id version rows u h in
      rw (update-kept id version set rows (a ∙ m), a, m, b) refl;
  others = λ j other. row_of-others id version j set rows keeps other;
}

row_of-absent :
    (id version j : ℕ) (set : Row → Row) (rows : List Row)
    → KeepsId set
    → row_of j rows ≡ none
    → row_of j (update id version set rows) ≡ none
unfolding update row_of
row_of-absent id version j set [] keeps h = refl
row_of-absent id version j set (r ∷ rows) keeps h =
    let ih = row_of-absent id version j set rows keeps in
    let kept = id-assigned (matches id version r) set r keeps in
    elim (Bool-cases (r.id == j)) [
      | inl e ↦ absurd (ground arith)
      | inr e ↦ rw (kept, e) (ih (sym (row_of-miss j r rows e) ∙ h))
    ]

pub update-UniqueIds :
    (id version : ℕ) (set : Row → Row) (rows : List Row)
    → KeepsId set
    → UniqueIds rows
    → UniqueIds (update id version set rows)
unfolding update
update-UniqueIds id version set [] keeps u = tt
update-UniqueIds id version set (r ∷ rows) keeps u =
    let kept = id-assigned (matches id version r) set r keeps in
    (
      rw kept (row_of-absent id version r.id set rows keeps u.0),
      update-UniqueIds id version set rows keeps u.1,
    )

-- An assignment that takes a row off the version it had.
abbrev pub Bumps : (Row → Row) → Type 0
Bumps set = (row : Row) (version : ℕ) → row.version ≡ pos version → (set row).version ≢ pos version

ok-not_err : {e : Failure} → ok (tt {0}) ≢ err e
ok-not_err q = cc

off-version :
    {id : ℕ} (row : Row) (version : ℕ)
    → row.id ≡ id
    → matches id version row ≡ false
    → row.version ≢ pos version
off-version {id} row version same m q = cc (matches_fresh id version row same q, m)

pub versioned-once :
    (id version : ℕ) (set again : Row → Row) (rows : List Row)
    → KeepsId set
    → KeepsId again
    → Bumps set
    → UniqueIds rows
    → (versioned none id version set rows).0 ≡ ok tt
    → let rows' = (versioned none id version set rows).1 in
      UniqueIds rows'
      × (versioned none id version again rows' ≡ (err (version_conflict ∷ []), rows'))
versioned-once id version set again rows keeps keeps' bumps u h =
    let first = versioned-Locked id version set rows keeps u in
    let u' : UniqueIds (versioned none id version set rows).1 =
      unfold versioned in update-UniqueIds id version set rows keeps u in
    let second =
      versioned-Locked id version again (versioned none id version set rows).1 keeps' u' in
    (
      u',
      elim (Option-cases (row_of id rows)) [
        | inl e ↦
            absurd (
              ok-not_err (sym h ∙ ap (λ (p : Result (Unit {0}) × List Row). p.0) (first.missing e)))
        | inr (row, e) ↦ elim (Bool-cases (matches id version row)) [
          | inl m ↦
              let same = eq_of_parts row.version (pos version) (ground arith) in
              second.stale (set row) (first.fresh row e same).1 (bumps row version same)
          | inr m ↦ absurd (
              ok-not_err (
                sym h
                ∙ ap (λ (p : Result (Unit {0}) × List Row). p.0)
                    (first.stale row e (off-version row version (row_of-id id rows e) m))))
        ]
      ],
    )
