-- ===== src/Lifecycle/Rows.antt =====
-- What one statement of the repository makes of a row.
use televote.Prelude.{
  ℕ, suc, ◌%◌, ◌^◌, ◌-◌, ◌<◌, ◌≡◌, refl, Bool, true, false, not, ◌||◌, List, [], ◌∷◌, Option, none,
  some, arith, ==_iff, ◌==◌, if◌then◌else◌, Bool-cases, inl, inr, ◌⊎◌, sym, ap, subst, ◌∙◌,
}
use televote.Prelude.Int.{ℤ, pos, negsuc, pos_part, eq_of_parts, ltb_ℤ, ◌+ℤ◌}
use televote.Errors.{Result, ok, err, Failure, reject_if, ◌>>=◌, ◌>>◌}
use televote.Domain.Poll.{
  Time, Status, Poll, PollOption, poll_type_of, poll_type_valid, status_valid, max_shard_count,
  status_of, can_transition_to,
}
use televote.Postgres.Polls.{
  Row, row_of, id_taken, matches, update, versioned, set_status, set_closing, status_text,
  scan_poll, scan_options,
}
use televote.Postgres.Polls.Updates.{
  UniqueIds, KeepsId, row_of-miss, row_of-update, row_of-others, update-UniqueIds,
}

-- What an update leaves of a row: all but the status, the closing time and the version.
abbrev pub identity : Row → Row
identity row = record row { status = []; closes_at = 0; version = pos 0 }

-- A row after one statement: as before, or changed to the next version, with its status moved along an edge of
-- the state machine or not at all.
pub record Bumped (row row' : Row) : Type 0 where
  pub same : identity row' ≡ identity row
  pub version : ℕ
  pub was : row.version ≡ pos version
  pub is : row'.version ≡ pos (suc version)
  pub status :
      (status_of row'.status ≡ status_of row.status)
      ⊎ (can_transition_to (status_of row.status) (status_of row'.status) ≡ true)

abbrev pub Stepped : Row → Row → Type 0
Stepped row row' = (row' ≡ row) ⊎ Bumped row row'

pub record Kept (old new : List Row) : Type 0 where
  pub unique : UniqueIds new
  pub rows :
      (j : ℕ) (row : Row)
      → row_of j old ≡ some row
      → (row' : Row) × (row_of j new ≡ some row') × Stepped row row'

pub unchanged : (rows : List Row) → UniqueIds rows → Kept rows rows
unchanged rows u = record { unique = u; rows = λ j row e. (row, e, inl refl) }

-- An assignment under a version, to a row of that version.
assigned :
    (b : Bool) (set : Row → Row) (row : Row)
    → (b ≡ true → Bumped row (set row))
    → Stepped row (if b then set row else row)
assigned true set row h = inr (h refl)
assigned false set row h = inl refl

pub versioned-Kept :
    (outage : Option Failure) (id version : ℕ) (set : Row → Row) (rows : List Row)
    → KeepsId set
    → UniqueIds rows
    → ((row : Row) → row_of id rows ≡ some row → row.version ≡ pos version → Bumped row (set row))
    → Kept rows (versioned outage id version set rows).1
unfolding versioned
versioned-Kept (some e) id version set rows keeps u h = unchanged rows u
versioned-Kept none id version set rows keeps u h = record {
  unique = update-UniqueIds id version set rows keeps u;
  rows = λ j row e. elim (Bool-cases (j == id)) [
    | inl same ↦
        let at = (==_iff j id).0 same in
        let found : row_of id rows ≡ some row = subst (λ i. row_of i rows ≡ some row) at e in
        (
          (if matches id version row then set row else row),
          subst
              (λ i.
                row_of i (update id version set rows)
                ≡ some (if matches id version row then set row else row))
              (sym at) (row_of-update id version set rows row keeps found),
          assigned (matches id version row) set row
              (λ m. h row found (eq_of_parts row.version (pos version) (ground arith))),
        )
    | inr other ↦
        (row, row_of-others id version j set rows keeps (λ q. absurd (ground arith)) ∙ e, inl refl)
  ];
}

-- What reading a row says of it.
pub record Scanned (row : Row) (p : Poll) : Type 0 where
  pub id : p.id ≡ row.id
  pub version : row.version ≡ pos p.version
  pub status : p.status ≡ status_of row.status

-- Five checks that are passed before a result.
passed :
    (a b c d last : Bool) (os : Result (List PollOption)) (f : List PollOption → Poll) {p : Poll}
    → (do
      reject_if a []
      reject_if b []
      reject_if c []
      reject_if d []
      reject_if last []
      o ← os
      ok (f o))
      ≡ ok p
    → (last ≡ false) × ((o : List PollOption) × (f o ≡ p))
passed true b c d last os f h = absurd cc
passed false true c d last os f h = absurd cc
passed false false true d last os f h = absurd cc
passed false false false true last os f h = absurd cc
passed false false false false true os f h = absurd cc
passed false false false false false (err e) f h = absurd cc
passed false false false false false (ok o) f h = (refl, (o, cc))

in_range :
    (x : ℤ)
    → (ltb_ℤ x (pos 1) || ltb_ℤ (pos (2 ^ 32 - 1)) x) ≡ false
    → x ≡ pos (pos_part x % 2 ^ 32)
in_range (pos n) h = let small : n < 2 ^ 32 = ground arith in ap pos (omega arith)
in_range (negsuc n) h = absurd (ground arith)

abbrev outside : ℤ → ℕ → ℕ → Bool
outside x low high = ltb_ℤ x (pos low) || ltb_ℤ (pos high) x

-- The poll that a row of good columns is read as.
abbrev poll_of : Row → List PollOption → Poll
poll_of row options = record {
  id = row.id;
  slug = row.slug;
  question = row.question;
  type = poll_type_of row.type;
  options = options;
  min_choices = pos_part row.min_choices % 2 ^ 8;
  max_choices = pos_part row.max_choices % 2 ^ 8;
  status = status_of row.status;
  opens_at = row.opens_at;
  closes_at = row.closes_at;
  shard_count = pos_part row.shard_count % 2 ^ 16;
  salt = row.salt;
  expected_audience = row.expected_audience;
  expected_conversion = row.expected_conversion;
  version = pos_part row.version % 2 ^ 32;
}

pub scan_poll-Scanned : (row : Row) (p : Poll) → scan_poll row ≡ ok p → Scanned row p
unfolding scan_poll
scan_poll-Scanned row p h =
    let (fits, (os, made)) =
      passed (not (poll_type_valid (poll_type_of row.type)))
        (not (status_valid (status_of row.status)))
        (outside row.min_choices 0 255 || outside row.max_choices 0 255)
        (outside row.shard_count 1 max_shard_count) (outside row.version 1 (2 ^ 32 - 1))
        (scan_options row.options) (poll_of row) h in
    record {
      id = ap (λ (q : Poll). q.id) (sym made);
      version = in_range row.version fits ∙ ap (λ (q : Poll). pos q.version) made;
      status = ap (λ (q : Poll). q.status) (sym made);
    }

next_version : (x : ℤ) (version : ℕ) → x ≡ pos version → x +ℤ pos 1 ≡ pos (suc version)
unfolding ◌+ℤ◌
next_version x version e = rw e (ground arith)

pub set_status-Bumped :
    (row : Row) (version : ℕ) (to : Status)
    → row.version ≡ pos version
    → can_transition_to (status_of row.status) (status_of (status_text to)) ≡ true
    → Bumped row (set_status (status_text to) row)
set_status-Bumped row version to e edge = record {
  same = refl;
  version = version;
  was = e;
  is = next_version row.version version e;
  status = inr edge;
}

pub set_closing-Bumped :
    (row : Row) (version : ℕ) (now : Time)
    → row.version ≡ pos version
    → Bumped row (set_closing now row)
set_closing-Bumped row version now e = record {
  same = refl;
  version = version;
  was = e;
  is = next_version row.version version e;
  status = inl refl;
}

not_taken : (id : ℕ) (rows : List Row) → id_taken id rows ≡ false → row_of id rows ≡ none
unfolding id_taken row_of
not_taken id [] h = refl
not_taken id (row ∷ rows) h = ground (arith, not_taken id rows)

taken : {o : Option Row} {row : Row} → o ≡ none → o ≡ some row → ⊥
taken e f = cc

pub added-Kept :
    (row : Row) (rows : List Row)
    → id_taken row.id rows ≡ false
    → UniqueIds rows
    → Kept rows (row ∷ rows)
added-Kept row rows free u =
    let new = not_taken row.id rows free in
    record {
      unique = (new, u);
      rows = λ j r e. elim (Bool-cases (row.id == j)) [
        | inr other ↦ (r, row_of-miss j row rows other ∙ e, inl refl)
        | inl same ↦
            absurd
              (taken new (subst (λ i. row_of i rows ≡ some r) (sym ((==_iff row.id j).0 same)) e))
      ];
    }
