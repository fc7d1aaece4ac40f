-- ===== src/Postgres/Polls.antt =====
-- internal/adapter/postgres/polls.go. A row holds the columns of `polls` with the signed integers of the
-- schema, and the poll's rows of `poll_options`, in the order of their index. A `timestamptz` holds whole
-- microseconds; its times stand in the rows as nanoseconds, and so does the database's own time.
pub mod Updates
pub mod Locking
pub mod RoundTrip
use televote.Prelude.{
  ℕ, suc, ◌+◌, ◌-◌, ◌*◌, ◌/◌, ◌^◌, ◌%◌, ◌≡◌, Bool, true, false, not, ◌&&◌, ◌||◌, List, [], ◌∷◌, map,
  Option, none, some, ltb, ◌==◌, if◌then◌else◌, is_nil, length,
}
use televote.Prelude.Int.{ℤ, pos, negsuc, ◌+ℤ◌, ltb_ℤ, leb_ℤ, pos_part}
use televote.Prelude.Text.{Text, codes, text_eq}
use televote.Errors.{
  Result, ok, err, Failure, is, invalid_choices, bad_transition, not_found, version_conflict,
  slug_taken, unique_violation, reject_if, ◌>>=◌, ◌>>◌,
}
use televote.Domain.Poll.{
  Time, PollType, single, multiple, other, Status, draft, scheduled, opened, closed, archived,
  unknown, poll_type_of, poll_type_valid, status_of, status_valid, max_options, max_shard_count,
  PollOption, Poll,
}

pub record Row : Type 0 where
  pub id : ℕ
  pub slug : Text
  pub question : Text
  pub type : Text
  pub min_choices : ℤ
  pub max_choices : ℤ
  pub status : Text
  pub opens_at : Time
  pub closes_at : Time
  pub shard_count : ℤ
  pub expected_audience : ℤ
  pub expected_conversion : ℕ
  pub salt : List ℕ
  pub version : ℤ
  pub options : List (ℤ × Text)

-- `string(t)` and `string(s)`.
abbrev pub type_text : PollType → Text
type_text single = codes "single"
type_text multiple = codes "multiple"
type_text (other s) = s

abbrev pub status_text : Status → Text
status_text draft = codes "draft"
status_text scheduled = codes "scheduled"
status_text opened = codes "open"
status_text closed = codes "closed"
status_text archived = codes "archived"
status_text (unknown s) = s

-- `WHERE id = $1` and `WHERE p.slug = $1` of a unique column.
unfoldable pub row_of : ℕ → List Row → Option Row
row_of id [] = none
row_of id (row ∷ rows) = if row.id == id then some row else row_of id rows

unfoldable pub rows_with_slug : Text → List Row → List Row
rows_with_slug slug [] = []
rows_with_slug slug (row ∷ rows) =
    let rest = rows_with_slug slug rows in if text_eq row.slug slug then row ∷ rest else rest

unfoldable pub id_taken : ℕ → List Row → Bool
id_taken id [] = false
id_taken id (row ∷ rows) = row.id == id || id_taken id rows

-- `ORDER BY o.idx`, by insertion.
unfoldable pub insert_option : ℤ × Text → List (ℤ × Text) → List (ℤ × Text)
insert_option o [] = o ∷ []
insert_option o (p ∷ os) =
    let rest = insert_option o os in if leb_ℤ o.0 p.0 then o ∷ p ∷ os else p ∷ rest

unfoldable pub option_rows : List PollOption → List (ℤ × Text)
option_rows [] = []
option_rows (o ∷ os) = insert_option (pos o.idx, o.text) (option_rows os)

abbrev pub version_or_one : ℕ → ℕ
version_or_one v = if v == 0 then 1 else v

-- What `pgx` sends of a time: its nanoseconds below a microsecond are cut off.
abbrev pub micro : Time → Time
micro t = t / 1000 * 1000

unfoldable pub insert_row : Poll → List ℕ → Row
insert_row p salt = record {
  id = p.id;
  slug = p.slug;
  question = p.question;
  type = type_text p.type;
  min_choices = pos p.min_choices;
  max_choices = pos p.max_choices;
  status = status_text p.status;
  opens_at = micro p.opens_at;
  closes_at = micro p.closes_at;
  shard_count = pos p.shard_count;
  expected_audience = p.expected_audience;
  expected_conversion = p.expected_conversion;
  salt = salt;
  version = pos (version_or_one p.version);
  options = option_rows p.options;
}

-- The checks of `Create` before the transaction, with the random source's answer.
unfoldable pub check_create : Poll → Option (List ℕ) → Result (List ℕ)
check_create p random = do
  reject_if (is_nil p.options) (invalid_choices ∷ [])
  reject_if (ltb max_options (length p.options)) (invalid_choices ∷ [])
  elim random [ none ↦ err [] | some salt ↦ ok salt ]

-- Postgres refuses a text with the character U+0000.
unfoldable pub has_nul : Text → Bool
has_nul [] = false
has_nul (c ∷ cs) = c == 0 || has_nul cs

unfoldable pub any_nul : List Text → Bool
any_nul [] = false
any_nul (t ∷ ts) = has_nul t || any_nul ts

abbrev pub poll_texts : Poll → List Text
poll_texts p = p.slug ∷ p.question ∷ type_text p.type ∷ status_text p.status ∷ []

-- The transaction: the texts of the row, then the two unique columns of `polls`, of which the slug's index is
-- the one that is named, then the texts of the options.
unfoldable pub insert_poll : Option Failure → Poll → List ℕ → List Row → Result Poll × List Row
insert_poll (some outage) p salt rows = (err outage, rows)
insert_poll none p salt rows =
    if any_nul (poll_texts p)
    then (err [], rows)
    else if id_taken p.id rows
    then (err (unique_violation ∷ []), rows)
    else if not (is_nil (rows_with_slug p.slug rows))
    then (err (slug_taken ∷ []), rows)
    else if any_nul (map (λ (o : PollOption). o.text) p.options)
    then (err [], rows)
    else (
      ok (record p { salt = salt; version = version_or_one p.version }),
      insert_row p salt ∷ rows,
    )

-- `Create`; the result is the poll as the call leaves it.
unfoldable pub create : Option Failure → Option (List ℕ) → Poll → List Row → Result Poll × List Row
create outage random p rows = elim (check_create p random) [
  | err e ↦ (err e, rows)
  | ok salt ↦ insert_poll outage p salt rows
]

-- The loop of `scanPoll` over the options.
unfoldable pub scan_options : List (ℤ × Text) → Result (List PollOption)
scan_options [] = ok []
scan_options ((idx, text) ∷ rest) =
    let scanned = scan_options rest in
    do
      reject_if (ltb_ℤ idx (pos 0) || ltb_ℤ (pos max_options) idx) []
      os ← scanned
      ok (record { idx = pos_part idx % 2 ^ 8; text = text } ∷ os)

abbrev outside : ℤ → ℕ → ℕ → Bool
outside x low high = ltb_ℤ x (pos low) || ltb_ℤ (pos high) x

unfoldable pub scan_poll : Row → Result Poll
scan_poll row = do
  reject_if (not (poll_type_valid (poll_type_of row.type))) []
  reject_if (not (status_valid (status_of row.status))) []
  reject_if (outside row.min_choices 0 255 || outside row.max_choices 0 255) []
  reject_if (outside row.shard_count 1 max_shard_count) []
  reject_if (outside row.version 1 (2 ^ 32 - 1)) []
  options ← scan_options row.options
  ok (record {
    id = row.id;
    slug = row.slug;
    question = row.question;
    type = poll_type_of row.type;
    options = options;
    min_choices = pos_part row.min_choices % 2 ^ 8;
    max_choices = pos_part row.max_choices % 2 ^ 8;
    status = status_of row.status;
    opens_at = row.opens_at;
    closes_at = row.closes_at;
    shard_count = pos_part row.shard_count % 2 ^ 16;
    salt = row.salt;
    expected_audience = row.expected_audience;
    expected_conversion = row.expected_conversion;
    version = pos_part row.version % 2 ^ 32;
  })

-- The loop of `query`.
unfoldable pub scan_all : List Row → Result (List Poll)
scan_all [] = ok []
scan_all (row ∷ rows) =
    let scanned = scan_all rows in do p ← scan_poll row; ps ← scanned; ok (p ∷ ps)

unfoldable pub query : Option Failure → List Row → Result (List Poll)
query (some outage) rows = err outage
query none rows = scan_all rows

abbrev first_poll : List Poll → Result Poll
first_poll [] = err (not_found ∷ [])
first_poll (p ∷ ps) = ok p

unfoldable pub get_by_slug : Option Failure → Text → List Row → Result Poll
get_by_slug outage slug rows = do polls ← query outage (rows_with_slug slug rows); first_poll polls

-- `ORDER BY p.opens_at, p.id`, by insertion.
abbrev pub comes_first : Row → Row → Bool
comes_first a b = ltb a.opens_at b.opens_at || (a.opens_at == b.opens_at && not (ltb b.id a.id))

unfoldable pub insert_ordered : Row → List Row → List Row
insert_ordered row [] = row ∷ []
insert_ordered row (next ∷ rows) =
    let rest = insert_ordered row rows in
    if comes_first row next then row ∷ next ∷ rows else next ∷ rest

unfoldable pub by_opening : List Row → List Row
by_opening [] = []
by_opening (row ∷ rows) = insert_ordered row (by_opening rows)

-- `WHERE p.status IN ('scheduled', 'open')`.
unfoldable pub active_rows : List Row → List Row
active_rows [] = []
active_rows (row ∷ rows) =
    let rest = active_rows rows in
    if text_eq row.status (codes "scheduled") || text_eq row.status (codes "open")
    then row ∷ rest
    else rest

unfoldable pub list_active : Option Failure → List Row → Result (List Poll)
unfolding query
list_active outage rows = query outage (by_opening (active_rows rows))

unfoldable pub list_all : Option Failure → List Row → Result (List Poll)
unfolding query
list_all outage rows = query outage (by_opening rows)

-- The condition `id = $1 AND version = $2`.
abbrev pub matches : ℕ → ℕ → Row → Bool
matches id version row =
    row.id == id && leb_ℤ row.version (pos version) && leb_ℤ (pos version) row.version

-- `UPDATE polls SET … WHERE id = $1 AND version = $2`.
unfoldable pub update : ℕ → ℕ → (Row → Row) → List Row → List Row
update id version set [] = []
update id version set (row ∷ rows) =
    let rest = update id version set rows in
    (if matches id version row then set row else row) ∷ rest

-- `EXISTS (SELECT 1 FROM updated)`.
unfoldable pub updates : ℕ → ℕ → List Row → Bool
updates id version [] = false
updates id version (row ∷ rows) = matches id version row || updates id version rows

unfoldable pub versioned_outcome : Bool → Bool → Result (Unit {0})
versioned_outcome applied exists =
    if applied
    then ok tt
    else if not exists
    then err (not_found ∷ [])
    else err (version_conflict ∷ [])

unfoldable pub versioned :
    Option Failure → ℕ → ℕ → (Row → Row) → List Row → Result (Unit {0}) × List Row
versioned (some outage) id version set rows = (err outage, rows)
versioned none id version set rows =
    (versioned_outcome (updates id version rows) (id_taken id rows), update id version set rows)

abbrev pub set_closing : Time → Row → Row
set_closing now row = record row { closes_at = now; version = row.version +ℤ pos 1 }

abbrev pub set_status : Text → Row → Row
set_status to row = record row { status = to; version = row.version +ℤ pos 1 }

-- `CloseNow`, at the database's time `now`.
unfoldable pub close_now : Option Failure → Time → ℕ → ℕ → List Row → Result (Unit {0}) × List Row
unfolding versioned
close_now outage now id version rows = versioned outage id version (set_closing now) rows

unfoldable pub transition :
    Option Failure → ℕ → Status → ℕ → List Row → Result (Unit {0}) × List Row
unfolding versioned
transition outage id to version rows =
    if not (status_valid to)
    then (err (bad_transition ∷ []), rows)
    else versioned outage id version (set_status (status_text to)) rows
