-- ===== src/Domain/Window.antt =====
-- internal/domain/validate.go: the voting window of a poll.
use televote.Prelude.{◌≤◌, ◌<◌, ◌≡◌, ◌↔◌, Bool, true, false, not, ◌&&◌, arith, ltb, if◌then◌else◌}
use televote.Domain.Poll.{Time, is_zero, Status, scheduled, opened, same_status, Poll}

pub record Window : Type 0 where
  pub status : Status
  pub opens_at : Time
  pub closes_at : Time

unfoldable pub window : Poll → Window
window p = record { status = p.status; opens_at = p.opens_at; closes_at = p.closes_at }

-- `t.Before(u)`.
abbrev pub before : Time → Time → Bool
before t u = ltb t u

unfoldable pub contains : Window → Time → Bool
contains w t =
    if is_zero w.closes_at then false else not (before t w.opens_at) && before t w.closes_at

unfoldable pub is_open_at : Window → Time → Bool
unfolding contains
is_open_at w t = same_status w.status opened && contains w t

unfoldable pub poll_is_open_at : Poll → Time → Bool
unfolding is_open_at window
poll_is_open_at p t = is_open_at (window p) t

unfoldable pub should_open_at : Poll → Time → Bool
should_open_at p t =
    if not (same_status p.status scheduled)
    then false
    else if is_zero p.opens_at
    then false
    else not (before t p.opens_at)

-- A vote's time lies in the window exactly when it is at or after the opening and before the closing;
-- a window that was never given an end contains no time.
pub contains_iff :
    (w : Window) (t : Time) → (contains w t ≡ true) ↔ ((w.opens_at ≤ t) × (t < w.closes_at))
unfolding contains
contains_iff w t = (λ h. ground arith, λ h. ground arith)
