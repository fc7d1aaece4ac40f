-- ===== src/Capacity/Phases.antt =====
-- Which poll an advice is about.
use televote.Prelude.{
  ◌+◌, ◌≤◌, ◌<◌, ◌≡◌, refl, Bool, true, false, ◌&&◌, List, [], ◌∷◌, ◌++◌, Option, All, All-append,
  arith, Bool-cases, inl, inr, if◌then◌else◌, subst, ap, ◌∙◌, and-elim,
}
use mathlib.Core.List.{append-nil, append_assoc}
use televote.Prelude.Int.{ℤ, pos}
use televote.Floats.{Floats}
use televote.Errors.{Result, ok}
use televote.Domain.Poll.{Time, Poll, Status, opened, same_status, is_positive}
use televote.Domain.Window.{poll_is_open_at, contains}
use televote.Domain.Create.{expected_votes}
use televote.Capacity.{
  Capacity, capacity_for, Advisor, Advice, idle, prewarming, live, draining, near, soon,
  advise_loop, read_lag, advise,
}

-- The poll is open, and it is in its window.
abbrev pub TakesVotes : Time → Poll → Type 0
TakesVotes now p = (p.status ≡ opened) × (p.opens_at ≤ now) × (now < p.closes_at)

-- The poll neither takes votes nor has some to count.
abbrev pub Calm : Time → ℤ → Poll → Type 0
Calm now lag p = (TakesVotes now p → ⊥) × (p.status ≡ opened → is_positive lag ≡ false)

-- The poll's opening is less than the lead away, and it has not closed.
abbrev pub Near : Advisor → Time → Poll → Type 0
Near a now p = (p.opens_at < now + a.prewarm) × (now < p.closes_at)

module _ (floats : Floats) (a : Advisor) (now : Time) (lag : ℤ) where
  abbrev pub need : Poll → Capacity
  need p = capacity_for floats (expected_votes floats p) (pos a.drain)

  -- Nothing goes on: the advice is for the last poll that is near, if there is one.
  pub data Awaits (polls : List Poll) (x : Advice) : Type 0 where
    nothing :
        All (λ p. Near a now p → ⊥) polls → x.phase ≡ idle → x.desired ≡ a.baseline → Awaits polls x
    upcoming :
        (earlier later : List Poll) (p : Poll)
        → polls ≡ earlier ++ p ∷ later
        → Near a now p
        → All (λ q. Near a now q → ⊥) later
        → x.phase ≡ prewarming
        → x.poll_slug ≡ p.slug
        → x.desired ≡ need p
        → Awaits polls x

  -- The advice is for the first poll that takes votes or has some to count.
  pub data Verdict (polls : List Poll) (x : Advice) : Type 0 where
    accepting :
        (earlier later : List Poll) (p : Poll)
        → polls ≡ earlier ++ p ∷ later
        → All (Calm now lag) earlier
        → TakesVotes now p
        → x.phase ≡ live
        → x.poll_slug ≡ p.slug
        → x.desired ≡ need p
        → Verdict polls x
    counting :
        (earlier later : List Poll) (p : Poll)
        → polls ≡ earlier ++ p ∷ later
        → All (Calm now lag) earlier
        → p.status ≡ opened
        → (TakesVotes now p → ⊥)
        → is_positive lag ≡ true
        → x.phase ≡ draining
        → x.poll_slug ≡ p.slug
        → x.desired ≡ need p
        → Verdict polls x
    waiting : All (Calm now lag) polls → Awaits polls x → Verdict polls x

  no_lag :
      (p : Poll)
      → (same_status p.status opened && is_positive lag) ≡ false
      → p.status ≡ opened
      → is_positive lag ≡ false
  no_lag p h e = ground arith

  same_status-opened : (s : Status) → same_status s opened ≡ true → s ≡ opened
  same_status-opened s h = ground arith

  takes_votes :
      (p : Poll) → (same_status p.status opened && poll_is_open_at p now) ≡ true → TakesVotes now p
  unfolding poll_is_open_at contains
  takes_votes p h = (ground arith, ground arith, ground arith)

  takes_none :
      (p : Poll)
      → (same_status p.status opened && poll_is_open_at p now) ≡ false
      → TakesVotes now p
      → ⊥
  unfolding poll_is_open_at contains
  takes_none p h (o, le, lt) = ground arith

  near_iff :
      (p : Poll) → (near a now p ≡ true → Near a now p) × (near a now p ≡ false → Near a now p → ⊥)
  unfolding near
  near_iff p = (λ h. (ground arith, ground arith), λ h k. ground arith)

  awaits_next :
      (earlier : List Poll) (p : Poll) (acc new : Advice)
      → Awaits earlier acc
      → new.phase ≡ prewarming
      → new.poll_slug ≡ p.slug
      → new.desired ≡ need p
      → Awaits (earlier ++ p ∷ []) (if near a now p then new else acc)
  awaits_next earlier p acc new w ph sl de = elim (Bool-cases (near a now p)) [
    | inl close ↦ rw close (upcoming earlier [] p refl ((near_iff p).0 close) tt ph sl de)
    | inr far ↦ rw far (still w ((near_iff p).1 far))
  ]
    where
      still : Awaits earlier acc → (Near a now p → ⊥) → Awaits (earlier ++ p ∷ []) acc
      still (nothing all ph' de') no_near =
          nothing (All-append _ earlier (p ∷ []) all (no_near, tt)) ph' de'
      still (upcoming before_it later q e h all ph' sl' de') no_near =
          upcoming before_it (later ++ p ∷ []) q
            (ap (λ xs. xs ++ p ∷ []) e ∙ append_assoc before_it (q ∷ later) (p ∷ [])) h
            (All-append _ later (p ∷ []) all (no_near, tt)) ph' sl' de'

  judged :
      (unknown : Bool) (earlier polls : List Poll) (acc : Advice)
      → All (Calm now lag) earlier
      → Awaits earlier acc
      → Verdict (earlier ++ polls) (advise_loop floats a now lag unknown acc polls)
  unfolding advise_loop
  judged unknown earlier [] acc calm w = rw (append-nil earlier) (waiting calm w)
  judged unknown earlier (p ∷ ps) acc calm w =
      elim (Bool-cases (same_status p.status opened && poll_is_open_at p now)) [
        | inl taking ↦
            rw taking (accepting earlier ps p refl calm (takes_votes p taking) refl refl refl)
        | inr not_taking ↦ elim (Bool-cases (same_status p.status opened && is_positive lag)) [
          | inl behind ↦
              let (o, some_lag) = and-elim (same_status p.status opened) (is_positive lag) behind in
              rw (not_taking, behind)
                (counting earlier ps p refl calm (same_status-opened p.status o)
                  (takes_none p not_taking) some_lag refl refl refl)
          | inr level ↦
              let calm_here : Calm now lag p = (takes_none p not_taking, no_lag p level) in
              let new = soon floats a lag unknown p in
              rw (not_taking, level)
                (subst
                  (λ xs.
                    Verdict xs
                      (advise_loop floats a now lag unknown (if near a now p then new else acc) ps))
                  (append_assoc earlier (p ∷ []) ps)
                  (judged unknown (earlier ++ p ∷ []) ps (if near a now p then new else acc)
                    (All-append _ earlier (p ∷ []) calm (calm_here, tt))
                    (awaits_next earlier p acc new w refl refl refl)))
        ]
      ]

-- The advice is for the first poll on the list that takes votes or, while consumers lag or their lag cannot be
-- read, is open and out of its window; it then names that poll and what its expected votes need. If there
-- is none, it is for the last poll that opens within the lead and has not closed, and if there is none of
-- these either it is the baseline. Nothing else makes it fail than that the polls cannot be listed.
pub advise-Verdict :
    (floats : Floats) (a : Advisor) (polls : List Poll) (lag_source : Option (Result ℤ))
    (now : Time)
    → (x : Advice) × (advise floats a (ok polls) lag_source now ≡ ok x)
      × Verdict floats a now (read_lag lag_source).0 polls x
unfolding advise
advise-Verdict floats a polls lag_source now =
    (_, refl, judged floats a now _ _ [] polls _ tt (nothing tt refl refl))
