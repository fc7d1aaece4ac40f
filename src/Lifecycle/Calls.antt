-- ===== src/Lifecycle/Calls.antt =====
-- What one call makes of the rows, given what it knows of the poll that it has read.
use televote.Prelude.{
  ℕ, suc, ◌≤◌, ◌≡◌, refl, true, not, ◌||◌, Option, none, some, arith, is_nil, Bool-cases, inl, inr,
  sym, ap, subst, ◌∙◌, List, map,
}
use televote.Prelude.Int.{pos}
use televote.Prelude.Text.{Text, text_eq}
use televote.Floats.{Floats}
use televote.Errors.{Result, ok, err, Failure, Result-cases}
use televote.Domain.Poll.{
  Time, Duration, Status, scheduled, opened, closed, Poll, status_of, status_valid, same_status,
  can_transition_to, PollOption,
}
use televote.Domain.Window.{should_open_at, window, is_open_at}
use televote.Domain.Create.{PollSpec, new_poll}
use televote.Postgres.Polls.{
  Row, row_of, id_taken, rows_with_slug, scan_poll, status_text, set_status, set_closing,
  transition, close_now, create, check_create, insert_poll, insert_row, any_nul, poll_texts,
}
use televote.Postgres.Polls.Updates.{UniqueIds}
use televote.Postgres.Results.{Tables}
use televote.Snapshot.{Env, handle}
use televote.Snapshot.Moves.{Moved, stayed, handle-moves}
use televote.Snapshot.Moves
use televote.PollService.{Audit, done, updated, open_found, close_found, create_poll}
use televote.Lifecycle.Rows.{
  Kept, unchanged, versioned-Kept, scan_poll-Scanned, set_status-Bumped, set_closing-Bumped,
  added-Kept,
}

-- What a call knows of a poll that it has read: the row has the version and the status it was read with, or a
-- later version.
pub record Known (p : Poll) (rows : List Row) : Type 0 where
  pub row : Row
  pub found : row_of p.id rows ≡ some row
  pub version : ℕ
  pub at : row.version ≡ pos version
  pub since : p.version ≤ version
  pub status : p.version ≡ version → status_of row.status ≡ p.status

pub read_Known :
    (row : Row) (p : Poll) (rows : List Row)
    → row_of row.id rows ≡ some row
    → scan_poll row ≡ ok p
    → Known p rows
read_Known row p rows e h =
    let said = scan_poll-Scanned row p h in
    record {
      row = row;
      found = ap (λ i. row_of i rows) said.id ∙ e;
      version = p.version;
      at = said.version;
      since = omega arith;
      status = λ q. sym said.status;
    }

same_version : {m n : ℕ} → pos m ≡ pos n → m ≡ n
same_version e = cc

pub later_Known : (p : Poll) (old new : List Row) → Kept old new → Known p old → Known p new
later_Known p old new kept k =
    let (row', found, change) = kept.rows p.id k.row k.found in
    elim change [
      | inl same ↦ record {
        row = row';
        found = found;
        version = k.version;
        at = ap (λ (r : Row). r.version) same ∙ k.at;
        since = k.since;
        status = λ q. ap (λ (r : Row). status_of r.status) same ∙ k.status q;
      }
      | inr b ↦
          let now : b.version ≡ k.version = same_version (sym b.was ∙ k.at) in
          record {
            row = row';
            found = found;
            version = suc b.version;
            at = b.is;
            since = let s = k.since in omega (arith, now);
            status = λ q. absurd (let s = k.since in omega (arith, now, q));
          }
    ]

same_row : {a b : Row} → some a ≡ some b → a ≡ b
same_row e = cc

-- At the version that was read the row has the status that was read.
read_status :
    (p : Poll) (rows : List Row) (row : Row)
    → Known p rows
    → row_of p.id rows ≡ some row
    → row.version ≡ pos p.version
    → status_of row.status ≡ p.status
read_status p rows row k e v =
    let same = same_row (sym k.found ∙ e) in
    ap (λ (r : Row). status_of r.status) (sym same)
    ∙ k.status (same_version (sym v ∙ ap (λ (r : Row). r.version) (sym same) ∙ k.at))

transition-Kept :
    (outage : Option Failure) (to : Status) (p : Poll) (rows : List Row)
    → UniqueIds rows
    → Known p rows
    → can_transition_to p.status (status_of (status_text to)) ≡ true
    → Kept rows (transition outage p.id to p.version rows).1
unfolding transition
transition-Kept outage to p rows u k edge = elim (Bool-cases (status_valid to)) [
  | inr bad ↦ rw bad (unchanged rows u)
  | inl valid ↦ rw valid (
      versioned-Kept outage p.id p.version (set_status (status_text to)) rows (λ row. refl) u
        (λ row e v. set_status-Bumped row p.version to v (
          subst (λ s. can_transition_to s (status_of (status_text to)) ≡ true)
            (sym (read_status p rows row k e v)) edge)))
]

close_now-Kept :
    (outage : Option Failure) (now : Time) (p : Poll) (rows : List Row)
    → UniqueIds rows
    → Kept rows (close_now outage now p.id p.version rows).1
unfolding close_now
close_now-Kept outage now p rows u =
    versioned-Kept outage p.id p.version (set_closing now) rows (λ row. refl) u
      (λ row e v. set_closing-Bumped row p.version now v)

insert_poll-Kept :
    (outage : Option Failure) (p : Poll) (salt : List ℕ) (rows : List Row)
    → UniqueIds rows
    → Kept rows (insert_poll outage p salt rows).1
unfolding insert_poll insert_row
insert_poll-Kept (some e) p salt rows u = unchanged rows u
insert_poll-Kept none p salt rows u = elim (Bool-cases (any_nul (poll_texts p))) [
  | inl refused ↦ rw refused (unchanged rows u)
  | inr plain ↦ elim (Bool-cases (id_taken p.id rows)) [
    | inl taken ↦ rw (plain, taken) (unchanged rows u)
    | inr free ↦ elim (Bool-cases (is_nil (rows_with_slug p.slug rows))) [
      | inr used ↦ rw (plain, free, used) (unchanged rows u)
      | inl unused ↦ elim (Bool-cases (any_nul (map (λ (o : PollOption). o.text) p.options))) [
        | inl refused ↦ rw (plain, free, unused, refused) (unchanged rows u)
        | inr sound ↦ rw (plain, free, unused, sound) (added-Kept (insert_row p salt) rows free u)
      ]
    ]
  ]
]

create-Kept :
    (outage : Option Failure) (random : Option (List ℕ)) (p : Poll) (rows : List Row)
    → UniqueIds rows
    → Kept rows (create outage random p rows).1
unfolding create
create-Kept outage random p rows u = elim (Result-cases (check_create p random)) [
  | inr (e, bad) ↦ rw (bad, create) (unchanged rows u)
  | inl (salt, good) ↦ rw (good, create) (insert_poll-Kept outage p salt rows u)
]

updated-rows :
    (change : Result (Unit {0}) × List Row) (p : Poll) (a : Audit)
    → (updated change p a).rows ≡ change.1
updated-rows (err e, rows) p a = refl
updated-rows (ok u, rows) p a = refl

to_opened :
    (s : Status)
    → can_transition_to s opened ≡ true
    → can_transition_to s (status_of (status_text opened)) ≡ true
unfolding text_eq
to_opened s h = h

scheduled_opens : (s : Status) → s ≡ scheduled → can_transition_to s opened ≡ true
unfolding can_transition_to
scheduled_opens s e = rw e refl

opened_closes :
    (s : Status) → s ≡ opened → can_transition_to s (status_of (status_text closed)) ≡ true
unfolding can_transition_to text_eq
opened_closes s e = rw e refl

pub open_found-Kept :
    (outage : Option Failure) (actor slug : Text) (p : Poll) (rows : List Row)
    → UniqueIds rows
    → Known p rows
    → Kept rows (open_found outage actor slug p rows).rows
unfolding open_found
open_found-Kept outage actor slug p rows u k =
    elim (Bool-cases (can_transition_to p.status opened)) [
      | inr no_way ↦ rw no_way (unchanged rows u)
      | inl edge ↦
          rw (edge, updated-rows (transition outage p.id opened p.version rows) _ _)
            (transition-Kept outage opened p rows u k (to_opened p.status edge))
    ]

pub close_found-Kept :
    (outage : Option Failure) (actor slug : Text) (now db_now : Time) (p : Poll) (rows : List Row)
    → UniqueIds rows
    → Kept rows (close_found outage actor slug now db_now p rows).rows
unfolding close_found
close_found-Kept outage actor slug now db_now p rows u =
    elim (Bool-cases (not (same_status p.status opened) || not (is_open_at (window p) now))) [
      | inl shut ↦ rw shut (unchanged rows u)
      | inr fine ↦
          rw (fine, updated-rows (close_now outage db_now p.id p.version rows) _ _)
            (close_now-Kept outage db_now p rows u)
    ]

due_scheduled : (p : Poll) (t : Time) → should_open_at p t ≡ true → p.status ≡ scheduled
unfolding should_open_at
due_scheduled p t h = ground arith

pub handle-Kept :
    (grace : ℕ) (env : Env) (p : Poll) (rows : List Row) (tables : Tables)
    → UniqueIds rows
    → Known p rows
    → Kept rows (handle grace env p (record { polls = rows; tables = tables })).1.polls
handle-Kept grace env p rows tables u k =
    elim (handle-moves grace env p (record { polls = rows; tables = tables })) [
      | stayed same ↦ subst (Kept rows) (sym same) (unchanged rows u)
      | Moves.opens due same ↦ subst (Kept rows) (sym same) (
          transition-Kept env.outage opened p rows u k
            (to_opened p.status (scheduled_opens p.status (due_scheduled p env.now due))))
      | Moves.closes on late dry same ↦
          subst (Kept rows) (sym same)
            (transition-Kept env.outage closed p rows u k (opened_closes p.status on))
    ]

done-rows : (made : Result Poll × List Row) (a : Audit) → (done made a).rows ≡ made.1
done-rows (err e, rows) a = refl
done-rows (ok p, rows) a = refl

pub create_poll-Kept :
    (floats : Floats) (id : ℕ) (random : Option (List ℕ)) (lead : Duration)
    (outage : Option Failure) (actor : Text) (spec : PollSpec) (now : Time) (rows : List Row)
    → UniqueIds rows
    → Kept rows (create_poll floats id random lead outage actor spec now rows).rows
unfolding create_poll
create_poll-Kept floats id random lead outage actor spec now rows u =
    elim (Result-cases (new_poll floats id spec now lead)) [
      | inr (e, bad) ↦ rw (bad, create_poll) (unchanged rows u)
      | inl (p, made) ↦
          rw (made, create_poll, done-rows (create outage random p rows) _)
            (create-Kept outage random p rows u)
    ]
