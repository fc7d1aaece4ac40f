-- ===== src/Capacity.antt =====
-- internal/domain/capacity.go and internal/service/capacity/advisor.go: how many instances a poll needs, and
-- which phase of a broadcast the service is in. The text of a time is not modelled: an advice names the time.
pub mod Bounds
pub mod Phases
use televote.Prelude.{
  ℕ, ◌+◌, ◌-◌, ◌*◌, ◌^◌, Bool, true, false, not, ◌&&◌, List, [], ◌∷◌, Option, none, some, ltb,
  if◌then◌else◌,
}
use televote.Prelude.Int.{ℤ, pos, pos_part, max_ℤ, wrap64, ◌+ℤ◌}
use televote.Prelude.Text.{Text, codes}
use televote.Floats.{Floats, float_half, float_two}
use televote.Errors.{Result, ok, err, Failure, reject_if, ◌>>=◌, ◌>>◌}
use televote.Domain.Poll.{Time, Duration, is_positive, second, Poll, opened, same_status}
use televote.Domain.Window.{before, poll_is_open_at}
use televote.Domain.Create.{expected_votes}
use televote.Redis.Tally.{seconds_of}

pub record Capacity : Type 0 where
  pub vote_api : ℤ
  pub consumers : ℤ
  pub redis_masters : ℤ
  pub kafka_partitions : ℤ

abbrev votes_per_api_pod : ℕ
votes_per_api_pod = 70_000

abbrev votes_per_sec_per_master : ℕ
votes_per_sec_per_master = 80_000

abbrev votes_per_sec_per_consumer : ℕ
votes_per_sec_per_consumer = 30_000

-- 15 as a float64.
abbrev peak_window_secs : ℕ
peak_window_secs = 0x402e000000000000

abbrev pub min_capacity_unit : ℤ
min_capacity_unit = pos 1

abbrev pub baseline_api : ℤ
baseline_api = pos 2

abbrev pub default_drain : ℕ
default_drain = 300 * second

unfoldable pub ceil_units : Floats → ℕ → ℕ → ℤ
ceil_units floats load per_unit =
    max_ℤ min_capacity_unit
      (wrap64 (floats.trunc (floats.div load (floats.of_int (pos per_unit))) +ℤ pos 1))

unfoldable pub peak_load : Floats → ℤ → ℕ
peak_load floats votes =
    floats.mul (floats.div (floats.mul (floats.of_int votes) float_half) peak_window_secs) float_two

unfoldable pub drain_load : Floats → ℤ → ℕ → ℕ
drain_load floats votes drain =
    floats.mul (floats.div (floats.of_int votes) (seconds_of floats drain)) float_two

unfoldable pub capacity_for : Floats → ℤ → Duration → Capacity
capacity_for floats votes drain_window =
    let drain = if is_positive drain_window then pos_part drain_window else default_drain in
    if not (is_positive votes)
    then record {
      vote_api = baseline_api;
      consumers = pos 0;
      redis_masters = pos 0;
      kafka_partitions = min_capacity_unit;
    }
    else record {
      vote_api = max_ℤ baseline_api (ceil_units floats (peak_load floats votes) votes_per_api_pod);
      consumers = ceil_units floats (drain_load floats votes drain) votes_per_sec_per_consumer;
      redis_masters = ceil_units floats (drain_load floats votes drain) votes_per_sec_per_master;
      kafka_partitions =
          ceil_units floats (drain_load floats votes drain) votes_per_sec_per_consumer;
    }

pub data Phase : Type 0 where
  idle prewarming live draining : Phase

pub record Advisor : Type 0 where
  pub drain : ℕ
  pub prewarm : ℕ
  pub baseline : Capacity

-- `New`, given whether there is a source of polls.
unfoldable pub new_advisor : Floats → Bool → Duration → Duration → Result Advisor
new_advisor floats polls drain_window prewarm_lead = do
  reject_if (not polls) []
  ok (record {
    drain = if is_positive drain_window then pos_part drain_window else default_drain;
    prewarm = if is_positive prewarm_lead then pos_part prewarm_lead else 3600 * second;
    baseline =
        capacity_for floats (pos 0)
          (if is_positive drain_window then drain_window else pos default_drain);
  })

pub record Advice : Type 0 where
  pub phase : Phase
  pub lag_unknown : Bool
  pub reason : Text
  pub poll_slug : Text
  pub opens_at : Option Time
  pub lag : ℤ
  pub desired : Capacity

-- `now.Add(a.prewarm).After(p.OpensAt) && now.Before(p.ClosesAt)`.
unfoldable pub near : Advisor → Time → Poll → Bool
near a now p = before p.opens_at (now + a.prewarm) && before now p.closes_at

abbrev pub soon : Floats → Advisor → ℤ → Bool → Poll → Advice
soon floats a lag lag_unknown p = record {
  phase = prewarming;
  lag_unknown = lag_unknown;
  reason = codes "broadcast is near, scaling capacity up";
  poll_slug = p.slug;
  opens_at = some p.opens_at;
  lag = lag;
  desired = capacity_for floats (expected_votes floats p) (pos a.drain);
}

-- The loop of `Advise`.
unfoldable pub advise_loop : Floats → Advisor → Time → ℤ → Bool → Advice → List Poll → Advice
advise_loop floats a now lag lag_unknown advice [] = advice
advise_loop floats a now lag lag_unknown advice (p ∷ ps) =
    let want = capacity_for floats (expected_votes floats p) (pos a.drain) in
    let go_on = λ (x : Advice). advise_loop floats a now lag lag_unknown x ps in
    if same_status p.status opened && poll_is_open_at p now
    then record {
      phase = live;
      lag_unknown = lag_unknown;
      reason = codes "votes are being accepted";
      poll_slug = p.slug;
      opens_at = some p.opens_at;
      lag = lag;
      desired = want;
    }
    else if same_status p.status opened && is_positive lag
    then record {
      phase = draining;
      lag_unknown = lag_unknown;
      reason = codes "intake closed, counting in progress";
      poll_slug = p.slug;
      opens_at = none;
      lag = lag;
      desired = want;
    }
    else go_on (if near a now p then soon floats a lag lag_unknown p else advice)

-- The lag that the loop goes by, and whether it is unknown; a source of lag may be missing.
unfoldable pub read_lag : Option (Result ℤ) → ℤ × Bool
read_lag none = (pos 0, false)
read_lag (some (err e)) = (pos 1, true)
read_lag (some (ok n)) = (n, false)

unfoldable pub advise :
    Floats → Advisor → Result (List Poll) → Option (Result ℤ) → Time → Result Advice
advise floats a listed lag_source now = do
  polls ← listed
  let seen = read_lag lag_source
  ok (
      advise_loop floats a now seen.0 seen.1
        (record {
          phase = idle;
          lag_unknown = seen.1;
          reason = codes "next broadcast is far away";
          poll_slug = [];
          opens_at = none;
          lag = seen.0;
          desired = a.baseline;
        })
        polls)
