-- ===== src/Postgres/Polls/RoundTrip.antt =====
-- A poll that was created is read back as it was.
use televote.Prelude.{
  ℕ, suc, ◌+◌, ◌^◌, ◌%◌, ◌≤◌, ◌<◌, ◌≡◌, refl, true, false, List, [], ◌∷◌, none, some, arith, ltb,
  is_nil, length, ap, subst, map, ◌*◌, ◌/◌,
}
use televote.Prelude.Int.{ℤ, pos}
use televote.Prelude.Text.{Text, text_eq, text_eq_iff, trim_space}
use televote.Floats.{Floats}
use televote.Errors.{Result, ok}
use televote.Domain.Poll.{
  Time, Duration, PollType, single, multiple, other, poll_type_of, poll_type_valid, status_valid,
  PollOption, Poll, shard_count_for,
}
use televote.Domain.Create.{PollSpec, make_options, choice_bound, make_poll, new_poll}
use televote.Domain.Create.Checks.{IsSound, new_poll-made}
use televote.Domain.Create.Votable.{length-make_options}
use televote.Postgres.Polls.{
  Row, type_text, rows_with_slug, id_taken, insert_option, option_rows, insert_row, check_create,
  insert_poll, create, micro, any_nul, poll_texts, scan_options, scan_poll, scan_all, query,
  get_by_slug,
}

-- The rows of options that are numbered from `i` on.
numbered : ℕ → List Text → List (ℤ × Text)
numbered i [] = []
numbered i (x ∷ xs) = (pos i, trim_space x) ∷ numbered (suc i) xs

insert_first :
    (i : ℕ) (t : Text) (xs : List Text)
    → insert_option (pos i, t) (numbered (suc i) xs) ≡ (pos i, t) ∷ numbered (suc i) xs
unfolding insert_option numbered
insert_first i t [] = refl
insert_first i t (x ∷ xs) = ground arith

option_rows-make_options :
    (i : ℕ) (xs : List Text) → i + length xs ≤ 256 → option_rows (make_options i xs) ≡ numbered i xs
unfolding option_rows make_options numbered
option_rows-make_options i [] h = refl
option_rows-make_options i (x ∷ xs) h =
    let small : i % 2 ^ 8 ≡ i = omega arith in
    rw (option_rows-make_options (suc i) xs (omega arith), small) (insert_first i (trim_space x) xs)

scan_options-numbered :
    (i : ℕ) (xs : List Text)
    → i + length xs ≤ 256
    → scan_options (numbered i xs) ≡ ok (make_options i xs)
unfolding scan_options make_options numbered
scan_options-numbered i [] h = refl
scan_options-numbered i (x ∷ xs) h =
    let ih = scan_options-numbered (suc i) xs (omega arith) in ground arith

type_back : (t : PollType) → poll_type_valid t ≡ true → poll_type_of (type_text t) ≡ t
unfolding poll_type_valid text_eq
type_back single h = refl
type_back multiple h = refl
type_back (other s) h = absurd cc

shards_small : (m : ℤ) → (1 ≤ shard_count_for m) × (shard_count_for m ≤ 16384)
unfolding shard_count_for
shards_small m = ground arith

bound_small : (t : PollType) (n : ℕ) → n < 256 → choice_bound t n < 256
bound_small single n h = omega arith
bound_small multiple n h = h
bound_small (other s) n h = h

-- The poll as the call leaves it, with its salt.
abbrev salted : ℕ → PollSpec → List ℕ → Poll
salted id s salt = record (make_poll id s) { salt = salt; version = 1 }

-- The poll as it is stored.
abbrev kept : ℕ → PollSpec → List ℕ → Poll
kept id s salt = record (salted id s salt) {
  opens_at = micro (make_poll id s).opens_at;
  closes_at = micro (make_poll id s).closes_at;
}

abbrev pub option_texts : Poll → List Text
option_texts p = map (λ (o : PollOption). o.text) p.options

is_nil-length : (xs : List PollOption) → 1 ≤ length xs → is_nil xs ≡ false
is_nil-length [] h = absurd (omega arith)
is_nil-length (x ∷ xs) h = refl

few_lem : (n : ℕ) → n ≤ 255 → ltb 255 n ≡ false
few_lem n h = ground arith

module _ (floats : Floats) (id : ℕ) (s : PollSpec) (now : Time) (lead : Duration) (salt : List ℕ)
    (v : IsSound floats s now lead) (low : s.min_choices < 256) (high : s.max_choices < 256) where
  scan_back : scan_poll (insert_row (make_poll id s) salt) ≡ ok (kept id s salt)
  unfolding scan_poll insert_row make_poll status_valid text_eq
  scan_back =
      let type = type_back s.type v.type in
      let options = option_rows-make_options 0 s.options (omega (arith, v.options)) in
      let scanned = scan_options-numbered 0 s.options (omega (arith, v.options)) in
      let shards = shards_small s.redis_masters in
      let least : choice_bound s.type s.min_choices < 256 = bound_small s.type s.min_choices low in
      let most : choice_bound s.type s.max_choices < 256 = bound_small s.type s.max_choices high in
      let valid = v.type in rw (type, options, scanned, valid) (ground arith)

  check_back : check_create (make_poll id s) (some salt) ≡ ok salt
  unfolding check_create make_poll
  check_back =
      let n = length-make_options 0 s.options in
      let some_options : is_nil (make_options 0 s.options) ≡ false =
        is_nil-length (make_options 0 s.options) (omega (arith, n, v.options)) in
      let few : ltb 255 (length (make_options 0 s.options)) ≡ false =
        few_lem (length (make_options 0 s.options)) (omega (arith, n, v.options)) in
      rw (some_options, few) refl

  insert_back :
      (rows : List Row)
      → id_taken id rows ≡ false
      → rows_with_slug s.slug rows ≡ []
      → any_nul (poll_texts (make_poll id s)) ≡ false
      → any_nul (option_texts (make_poll id s)) ≡ false
      → insert_poll none (make_poll id s) salt rows
        ≡ (ok (salted id s salt), insert_row (make_poll id s) salt ∷ rows)
  unfolding insert_poll make_poll
  insert_back rows new_id new_slug head options = rw (head, new_id, new_slug, options) refl

  create_back :
      (rows : List Row)
      → id_taken id rows ≡ false
      → rows_with_slug s.slug rows ≡ []
      → any_nul (poll_texts (make_poll id s)) ≡ false
      → any_nul (option_texts (make_poll id s)) ≡ false
      → create none (some salt) (make_poll id s) rows
        ≡ (ok (salted id s salt), insert_row (make_poll id s) salt ∷ rows)
  unfolding create
  create_back rows new_id new_slug head options =
      rw (check_back, create) (insert_back rows new_id new_slug head options)

  rows_with_slug-create :
      (rows : List Row)
      → rows_with_slug s.slug rows ≡ []
      → rows_with_slug s.slug (insert_row (make_poll id s) salt ∷ rows)
        ≡ insert_row (make_poll id s) salt ∷ []
  unfolding rows_with_slug insert_row make_poll
  rows_with_slug-create rows new_slug = rw ((text_eq_iff s.slug s.slug).1 refl, new_slug) refl

  get_back :
      (rows : List Row)
      → rows_with_slug s.slug rows ≡ []
      → get_by_slug none s.slug (insert_row (make_poll id s) salt ∷ rows) ≡ ok (kept id s salt)
  unfolding get_by_slug query scan_all
  get_back rows new_slug = rw (rows_with_slug-create rows new_slug, scan_back) refl

-- A poll that passes the checks is stored and read back: where neither its id nor its slug is taken and none
-- of its texts has the character U+0000, creating it succeeds and leaves it with its salt and at version 1, and
-- reading it by its slug gives that poll, with its opening and closing cut to whole microseconds. The bounds on
-- choices are bytes.
pub create-get_by_slug :
    (floats : Floats) (id : ℕ) (s : PollSpec) (now : Time) (lead : Duration) (salt : List ℕ)
    (rows : List Row) {p : Poll}
    → new_poll floats id s now lead ≡ ok p
    → s.min_choices < 256
    → s.max_choices < 256
    → id_taken id rows ≡ false
    → rows_with_slug s.slug rows ≡ []
    → any_nul (poll_texts p) ≡ false
    → any_nul (option_texts p) ≡ false
    → let (answer, rows') = create none (some salt) p rows in
      let created : Poll = record p { salt = salt; version = 1 } in
      (answer ≡ ok created)
      × (get_by_slug none s.slug rows'
          ≡ ok (record created {
            opens_at = p.opens_at / 1000 * 1000;
            closes_at = p.closes_at / 1000 * 1000;
          }))
create-get_by_slug floats id s now lead salt rows {p} h low high new_id new_slug head options =
    let (made, v) = new_poll-made floats id s now lead h in
    let head' = subst (λ x. any_nul (poll_texts x) ≡ false) made head in
    let options' = subst (λ x. any_nul (option_texts x) ≡ false) made options in
    let created =
      create_back floats id s now lead salt v low high rows new_id new_slug head' options' in
    let found = get_back floats id s now lead salt v low high rows new_slug in
    rw made (ap (λ (x : Result Poll × List Row). x.0) created, rw created found)
