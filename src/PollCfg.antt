-- ===== src/PollCfg.antt =====
-- internal/service/pollcfg/cache.go: the in-memory poll configurations of the hot path. The two maps
-- are lists of writes, the latest first; the repository's answer is an argument of each refresh.
pub mod Lookup
use televote.Prelude.{
  ℕ, zero, suc, ◌+◌, ◌≡◌, Bool, true, false, ◌||◌, not, ◌*◌, List, [], ◌∷◌, ◌==◌, if◌then◌else◌,
  is_nil, Option, none, some,
}
use televote.Prelude.Text.{Text, text_eq}
use televote.Prelude.Int.{ℤ, pos, negsuc, pos_part}
use televote.Errors.{Result, ok, err, Failure, no_repo, bad_interval, reject_if, ◌>>=◌, ◌>>◌}
use televote.Domain.Poll.{Time, Duration, is_positive, second, Poll, PollOption, Sharding}
use televote.Domain.Choices.{ChoiceRules, choice_rules}
use televote.Domain.Window.{Window, window}

pub record HotConfig : Type 0 where
  pub id : ℕ
  pub slug : Text
  pub question : Text
  pub options : List PollOption
  pub rules : ChoiceRules
  pub window : Window
  pub shard_count : ℕ
  pub salt : List ℕ

unfoldable pub config_sharding : HotConfig → Sharding
config_sharding c = record { poll_id = c.id; shard_count = c.shard_count }

pub record Snapshot : Type 0 where
  pub by_slug : List (Text × HotConfig)
  pub by_id : List (ℕ × HotConfig)

pub record Cache : Type 0 where
  pub interval : ℕ
  pub refresh_timeout : ℕ
  pub current : Option Snapshot
  pub last_refresh : ℕ

abbrev pub default_refresh_timeout : ℕ
default_refresh_timeout = 5 * second

-- `NewCache`, given a repository or nil.
unfoldable pub new_cache : Bool → Duration → Result Cache
new_cache has_repo interval = do
  reject_if (not has_repo) (no_repo ∷ [])
  reject_if (not (is_positive interval)) (bad_interval ∷ [])
  ok (record {
    interval = pos_part interval;
    refresh_timeout = default_refresh_timeout;
    current = none;
    last_refresh = 0;
  })

unfoldable pub find_slug : Text → List (Text × HotConfig) → Option HotConfig
find_slug s [] = none
find_slug s ((k, c) ∷ m) = if text_eq k s then some c else find_slug s m

unfoldable pub find_id : ℕ → List (ℕ × HotConfig) → Option HotConfig
find_id i [] = none
find_id i ((k, c) ∷ m) = if k == i then some c else find_id i m

unfoldable pub by_slug : Cache → Text → Option HotConfig
unfolding find_slug
by_slug c s = elim c.current [ none ↦ none | some snap ↦ find_slug s snap.by_slug ]

unfoldable pub by_id : Cache → ℕ → Option HotConfig
unfolding find_id
by_id c i = elim c.current [ none ↦ none | some snap ↦ find_id i snap.by_id ]

-- A nil poll is `none`.
unfoldable pub hot_config : Option Poll → Option HotConfig
hot_config none = none
hot_config (some p) =
    if is_nil p.slug
    then none
    else if p.id == 0
    then none
    else some (record {
      id = p.id;
      slug = p.slug;
      question = p.question;
      options = p.options;
      rules = choice_rules p;
      window = window p;
      shard_count = p.shard_count;
      salt = p.salt;
    })

abbrev store_config : Option HotConfig → Snapshot → Snapshot
store_config none snap = snap
store_config (some c) snap = record {
  by_slug = (c.slug, c) ∷ snap.by_slug;
  by_id = (c.id, c) ∷ snap.by_id;
}

-- The loop of `refresh`.
unfoldable pub fill : Snapshot → List (Option Poll) → Snapshot
fill snap [] = snap
fill snap (p ∷ polls) = fill (store_config (hot_config p) snap) polls

-- `refresh` at the instant `now`; `Warm` is a refresh, and so is every tick of `Run`, which keeps what
-- it has when a refresh fails.
unfoldable pub refresh : Result (List (Option Poll)) → Time → Cache → Result (Unit {0}) × Cache
refresh (err e) now c = (err e, c)
refresh (ok polls) now c = (
  ok tt,
  record c {
    current = some (fill (record { by_slug = []; by_id = [] }) polls);
    last_refresh = now;
  },
)

-- The ticks of `Run`: what the repository answers, and when.
unfoldable pub run : List (Result (List (Option Poll)) × Time) → Cache → Cache
run [] c = c
run ((answer, now) ∷ ticks) c = run ticks (refresh answer now c).1
