-- ===== src/Examples/Rules.antt =====
-- Examples of the domain's rules.
use televote.Prelude.{
  ℕ, ◌≤◌, ◌<◌, ◌≡◌, ◌≢◌, ◌↔◌, ◌⊎◌, inl, inr, refl, Bool, true, false, List, [], ◌∷◌, Option, none,
  some, arith, length, ◌*◌, ◌/◌,
}
use televote.Prelude.Int.{pos}
use televote.Prelude.Text.{Text, codes, text_eq}
use televote.Errors.{ok, is, context_canceled, closing, deadline_exceeded, store_unavailable}
use televote.Domain.Poll.{
  Poll, multiple, scheduled, opened, closed, can_transition_to, transitions, shard_count_for,
}
use televote.Domain.Choices.{validate}
use televote.Domain.Choices.Valid.{Allowed, validate_iff}
use televote.Domain.Create.{PollSpec, make_poll, new_poll}
use televote.Domain.Create.Checks.{IsSound, new_poll_iff}
use televote.Redis.Fault.{no_reply, chain, classify, Passing, classify_iff}
use televote.Postgres.Polls.{
  Row, insert_row, id_taken, rows_with_slug, create, get_by_slug, any_nul, has_nul, poll_texts,
}
use televote.Postgres.Polls.RoundTrip.{option_texts, create-get_by_slug}
use televote.Examples.{salt, whole, rules, poll}

validate_iff_example : (validate rules (2 ∷ 2 ∷ []) ≡ ok tt) ↔ Allowed rules (2 ∷ 2 ∷ [])
validate_iff_example = validate_iff rules (2 ∷ 2 ∷ [])

abbrev spec : PollSpec
spec = record {
  slug = codes "final";
  question = codes " Who? ";
  type = multiple;
  options = codes "a" ∷ codes "b" ∷ codes "c" ∷ [];
  min_choices = 1;
  max_choices = 2;
  opens_at = 1500;
  closes_at = 2700;
  expected_audience = pos 1000;
  expected_conversion = 0;
  redis_masters = pos 2;
}

new_poll_iff_example :
    (new_poll whole 7 spec 10 (pos 50) ≡ ok (make_poll 7 spec)) ↔ IsSound whole spec 10 (pos 50)
new_poll_iff_example = new_poll_iff whole 7 spec 10 (pos 50)

made_lem : new_poll whole 7 spec 10 (pos 50) ≡ ok (make_poll 7 spec)
unfolding new_poll televote.Domain.Create.check_spec televote.Domain.Create.slug_matches
    televote.Domain.Create.all_slug_chars televote.Prelude.Text.trim_space
    televote.Prelude.Text.byte_len televote.Domain.Poll.poll_type_valid
    televote.Domain.Create.check_options televote.Domain.Create.check_bounds
made_lem = refl

not_stored : is (chain (no_reply (deadline_exceeded ∷ []))) store_unavailable ≡ false
unfolding is
not_stored = refl

classify_iff_example :
    let f = no_reply (deadline_exceeded ∷ []) in
    is (classify f) store_unavailable ≡ true
    ↔ (is (chain f) context_canceled ≡ false) × (is (chain f) closing ≡ false) × Passing f
classify_iff_example = classify_iff (no_reply (deadline_exceeded ∷ [])) not_stored

abbrev other_rows : List Row
other_rows = insert_row (record poll { id = 8; slug = codes "next" }) salt ∷ []

id_free : id_taken 7 other_rows ≡ false
unfolding id_taken insert_row
id_free = refl

slug_free : rows_with_slug (codes "final") other_rows ≡ []
unfolding rows_with_slug insert_row text_eq
slug_free = refl

head_plain : any_nul (poll_texts (make_poll 7 spec)) ≡ false
unfolding any_nul has_nul make_poll televote.Prelude.Text.trim_space
head_plain = refl

options_plain : any_nul (option_texts (make_poll 7 spec)) ≡ false
unfolding any_nul has_nul make_poll televote.Domain.Create.make_options
    televote.Prelude.Text.trim_space
options_plain = refl

create-get_by_slug_example :
    let (answer, rows') = create none (some salt) (make_poll 7 spec) other_rows in
    let created : Poll = record (make_poll 7 spec) { salt = salt; version = 1 } in
    (answer ≡ ok created)
    × (get_by_slug none (codes "final") rows'
        ≡ ok (record created {
          opens_at = (make_poll 7 spec).opens_at / 1000 * 1000;
          closes_at = (make_poll 7 spec).closes_at / 1000 * 1000;
        }))
create-get_by_slug_example =
    create-get_by_slug whole 7 spec 10 (pos 50) salt other_rows made_lem (omega arith) (omega arith)
      id_free slug_free head_plain options_plain
