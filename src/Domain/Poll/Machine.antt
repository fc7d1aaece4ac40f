-- ===== src/Domain/Poll/Machine.antt =====
-- What the state machine of fsm.go and the shard count of poll.go guarantee.
use televote.Prelude.{ℕ, ◌+◌, ◌<◌, ◌≡◌, refl, true, arith, ◌⊎◌, inl}
use televote.Domain.Poll.{
  Status, draft, scheduled, opened, closed, archived, unknown, can_transition_to,
}

-- The rank of a status along its life.
abbrev pub rank : Status → ℕ
rank draft = 0
rank scheduled = 1
rank opened = 2
rank closed = 3
rank archived = 4
rank (unknown s) = 5

pub data Reaches : Status → Status → Type 0 where
  here : {s : Status} → Reaches s s
  next : {s t u : Status} → Reaches s t → can_transition_to t u ≡ true → Reaches s u

step-rank : (s t : Status) → can_transition_to s t ≡ true → rank t ≡ rank s + 1
unfolding can_transition_to
step-rank draft t h = ground arith
step-rank _ t h = ground arith

-- A status never comes back: every path of transitions climbs, and one that ends where it began is empty.
pub Reaches-rank : {s t : Status} → Reaches s t → (s ≡ t) ⊎ (rank s < rank t)
Reaches-rank here = inl refl
Reaches-rank (next {s} {t} {u} r h) = ground (arith, step-rank t u h, Reaches-rank r)
