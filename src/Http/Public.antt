-- ===== src/Http/Public.antt =====
-- internal/transport/httpapi/public.go and capacity.go: the handlers that read. A time in an answer is the instant that
-- its text names.
use televote.Prelude.{ℕ, List, [], ◌∷◌, map, Option, none, some}
use televote.Prelude.Text.{Text, codes}
use televote.Errors.{Result, ok, err, page_not_found}
use televote.Domain.Poll.{Time, PollOption}
use televote.PollCfg.{HotConfig}
use televote.Postgres.Polls.{type_text}
use televote.Capacity.{Advice}
use televote.Http.{Response, write_error}

pub record PollConfigResponse : Type 0 where
  pub slug : Text
  pub question : Text
  pub options : List Text
  pub type : Text
  pub min_choices : ℕ
  pub max_choices : ℕ
  pub opens_at : Time
  pub closes_at : Time

-- An answer that is an error, or one with a body and the header Cache-Control.
pub data Answer (A : Type 0) : Type 0 where
  failed : Response → Answer A
  answered : ℕ → A → Option Text → Answer A

-- `serverTime`.
unfoldable pub server_time : Time → Answer Time
server_time now = answered 200 now (some (codes "no-store"))

-- `pollConfig`.
unfoldable pub poll_config : (Text → Option HotConfig) → Text → Answer PollConfigResponse
poll_config lookup slug = elim (lookup slug) [
  | none ↦ failed (write_error (page_not_found ∷ []))
  | some cfg ↦
      answered 200
        (record {
          slug = cfg.slug;
          question = cfg.question;
          options = map (λ (o : PollOption). o.text) cfg.options;
          type = type_text cfg.rules.type;
          min_choices = cfg.rules.min_choices;
          max_choices = cfg.rules.max_choices;
          opens_at = cfg.window.opens_at;
          closes_at = cfg.window.closes_at;
        })
        (some (codes "public, max-age=10"))
]

-- `capacityHandler`.
unfoldable pub capacity_handler : Result Advice → Answer Advice
capacity_handler (err e) = failed (write_error e)
capacity_handler (ok advice) = answered 200 advice none
