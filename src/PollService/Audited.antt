-- ===== src/PollService/Audited.antt =====
-- The audit records of a call of the poll service are its actor's.
use televote.Prelude.{ℕ, ◌≡◌, refl, not, ◌||◌, List, Option, All, inl, inr, Bool-cases}
use televote.Prelude.Text.{Text, codes}
use televote.Floats.{Floats}
use televote.Errors.{Result, ok, err, Failure, Result-cases}
use televote.Domain.Poll.{Time, Duration, Poll, opened, same_status, can_transition_to}
use televote.Domain.Create.{PollSpec, new_poll}
use televote.Domain.Window.{window, is_open_at}
use televote.Postgres.Polls.{Row, create, get_by_slug, transition, close_now}
use televote.PollService.{
  Audit, Outages, create_poll, open_found, open_poll, close_found, close_poll, updated,
}

-- The audit records are the actor's.
abbrev pub By : Text → List Audit → Type 0
By actor = All (λ a. a.actor ≡ actor)

updated-By :
    (actor action entity : Text) (p : Poll) (res : Result (Unit {0})) (rows : List Row)
    → By actor
        (updated (res, rows) p (record { actor = actor; action = action; entity = entity })).audited
updated-By actor action entity p (ok u) rows = (refl, tt)
updated-By actor action entity p (err e) rows = tt

open_found-By :
    (outage : Option Failure) (actor slug : Text) (p : Poll) (rows : List Row)
    → By actor (open_found outage actor slug p rows).audited
unfolding open_found
open_found-By outage actor slug p rows = elim (Bool-cases (can_transition_to p.status opened)) [
  | inr no_way ↦ rw (no_way, open_found) tt
  | inl fine ↦
      rw (fine, open_found)
        (updated-By actor (codes "open_poll") slug (record p { status = opened })
          (transition outage p.id opened p.version rows).0
          (transition outage p.id opened p.version rows).1)
]

pub open_poll-By :
    (io : Outages) (actor slug : Text) (rows : List Row)
    → By actor (open_poll io actor slug rows).audited
unfolding open_poll
open_poll-By io actor slug rows = elim (Result-cases (get_by_slug io.reading slug rows)) [
  | inr (e, bad) ↦ rw (bad, open_poll) tt
  | inl (p, found) ↦ rw (found, open_poll) (open_found-By io.writing actor slug p rows)
]

close_found-By :
    (outage : Option Failure) (actor slug : Text) (now db_now : Time) (p : Poll) (rows : List Row)
    → By actor (close_found outage actor slug now db_now p rows).audited
unfolding close_found
close_found-By outage actor slug now db_now p rows =
    elim (Bool-cases (not (same_status p.status opened) || not (is_open_at (window p) now))) [
      | inl shut ↦ rw (shut, close_found) tt
      | inr fine ↦
          rw (fine, close_found)
            (updated-By actor (codes "close_poll") slug (record p { closes_at = now })
              (close_now outage db_now p.id p.version rows).0
              (close_now outage db_now p.id p.version rows).1)
    ]

pub close_poll-By :
    (io : Outages) (actor slug : Text) (now db_now : Time) (rows : List Row)
    → By actor (close_poll io actor slug now db_now rows).audited
unfolding close_poll
close_poll-By io actor slug now db_now rows =
    elim (Result-cases (get_by_slug io.reading slug rows)) [
      | inr (e, bad) ↦ rw (bad, close_poll) tt
      | inl (p, found) ↦
          rw (found, close_poll) (close_found-By io.writing actor slug now db_now p rows)
    ]

pub create_poll-By :
    (floats : Floats) (id : ℕ) (random : Option (List ℕ)) (lead : Duration)
    (outage : Option Failure) (actor : Text) (spec : PollSpec) (now : Time) (rows : List Row)
    → By actor (create_poll floats id random lead outage actor spec now rows).audited
unfolding create_poll
create_poll-By floats id random lead outage actor spec now rows =
    elim (Result-cases (new_poll floats id spec now lead)) [
      | inr (e, bad) ↦ rw (bad, create_poll) tt
      | inl (p, made) ↦ elim (Result-cases (create outage random p rows).0) [
        | inr (e, bad) ↦ rw (made, bad, create_poll) tt
        | inl (q, stored) ↦ rw (made, stored, create_poll) (refl, tt)
      ]
    ]
