-- ===== src/Http/Admin.antt =====
-- internal/transport/httpapi/admin.go, and `AdminRoutes` of router.go: the admin's part of the API over the tables.
-- Decoding a JSON body or a time is a parameter: what cannot be decoded is `none`. A time in an answer is
-- the instant that its text names.
pub mod Guarded
use televote.Prelude.{
  ℕ, ◌≡◌, Bool, true, false, List, [], ◌∷◌, ◌++◌, map, Option, none, some, if◌then◌else◌,
}
use televote.Prelude.Int.{ℤ, pos, ltb_ℤ, leb_ℤ}
use televote.Prelude.Text.{Text, codes}
use televote.Floats.{Floats, float_zero}
use televote.Errors.{Result, ok, err, Failure, bad_request, ◌>>=◌}
use televote.Domain.Poll.{Time, Duration, PollOption, Poll, Admin, poll_type_of}
use televote.Domain.Aggregate.{Aggregate, get}
use televote.Domain.Create.{PollSpec}
use televote.Auth.{Libraries, TokenService, Session, Claims, login, require_role}
use televote.Postgres.Polls.{Row, type_text, status_text, list_all}
use televote.Postgres.Results.{Tables}
use televote.Postgres.Admins.{by_login, write_audit}
use televote.PollService.{
  Audit, Answer, Outages, Outcome, create_poll, open_poll, close_poll, results,
}
use televote.Http.{classify}

-- The tables that the handlers work on.
pub record Site : Type 0 where
  pub polls : List Row
  pub tables : Tables
  pub admins : List Admin
  pub audits : List Audit

-- What a call meets: the clocks of the service, of its tokens and of the database, failures of the database,
-- a new UUID and the salt that the random source gives.
pub record Moment : Type 0 where
  pub now : Time
  pub token_now : Time
  pub db_now : Time
  pub io : Outages
  pub audit_outage : Option Failure
  pub new_uuid : ℕ
  pub random : Option (List ℕ)

pub record LoginRequest : Type 0 where
  pub login : Text
  pub password : Text

pub record CreatePollRequest : Type 0 where
  pub slug : Text
  pub question : Text
  pub type : Text
  pub options : List Text
  pub min_choices : ℕ
  pub max_choices : ℕ
  pub opens_at : Option Time
  pub closes_at : Option Time
  pub expected_audience : ℤ
  pub expected_conversion : ℕ
  pub redis_masters : ℤ

-- `toSpec`.
unfoldable pub to_spec : CreatePollRequest → Result PollSpec
to_spec r = elim r.opens_at [
  | none ↦ err (bad_request ∷ [])
  | some opens_at ↦ elim r.closes_at [
    | none ↦ err (bad_request ∷ [])
    | some closes_at ↦ ok (record {
      slug = r.slug;
      question = r.question;
      type = poll_type_of r.type;
      options = r.options;
      min_choices = r.min_choices;
      max_choices = r.max_choices;
      opens_at = opens_at;
      closes_at = closes_at;
      expected_audience = r.expected_audience;
      expected_conversion = r.expected_conversion;
      redis_masters = r.redis_masters;
    })
  ]
]

pub record PollResponse : Type 0 where
  pub id : Text
  pub slug : Text
  pub question : Text
  pub type : Text
  pub options : List Text
  pub status : Text
  pub opens_at : Time
  pub closes_at : Time
  pub shard_count : ℕ

pub record OptionResult : Type 0 where
  pub idx : ℕ
  pub text : Text
  pub votes : ℤ
  pub percent : ℕ

pub record ResultsResponse : Type 0 where
  pub slug : Text
  pub status : Text
  pub ballots : ℤ
  pub options : List OptionResult
  pub final : Bool

pub data Body : Type 0 where
  problem : Text → Body
  session : Text → Text → Body
  one_poll : PollResponse → Body
  polls_list : List PollResponse → Body
  poll_results : ResultsResponse → Body

pub record Reply : Type 0 where
  pub status : ℕ
  pub body : Body

abbrev pub answer : ℕ → Body → Reply
answer status body = record { status = status; body = body }

-- `WriteError`, less its header.
unfoldable pub refusal : Failure → Reply
refusal e = let (status, code) = classify e in answer status (problem code)

-- The requests of `AdminRoutes`, by their method and path; a request that fits none is answered by the router.
pub data Request : Type 0 where
  login_with : Option LoginRequest → Request
  list_polls : Request
  results_of : Text → Request
  create_with : Option CreatePollRequest → Request
  open_slug close_slug : Text → Request

-- The role that the group of the route requires.
unfoldable pub required_role : Request → Option Text
required_role (login_with req) = none
required_role list_polls = some (codes "viewer")
required_role (results_of slug) = some (codes "viewer")
required_role (create_with req) = some (codes "editor")
required_role (open_slug slug) = some (codes "editor")
required_role (close_slug slug) = some (codes "editor")

-- 100 as a float64.
abbrev pub float_hundred : ℕ
float_hundred = 0x4059000000000000

-- `Aggregate.Percent`.
unfoldable pub percent : Floats → Aggregate → ℕ → ℕ
percent floats a idx =
    if leb_ℤ a.ballots (pos 0)
    then float_zero
    else floats.mul (floats.div (floats.of_int (get a.votes idx)) (floats.of_int a.ballots))
        float_hundred

-- `Service.record` for each record of a call: a failure is only logged.
unfoldable pub record_all : Option Failure → List Audit → List Audit → List Audit
record_all outage [] audits = audits
record_all outage (a ∷ new) audits = record_all outage new (write_audit outage a audits).1

module _ (floats : Floats) (lib : Libraries) (tokens : TokenService) (lead : Duration) where
  unfoldable pub to_poll_response : Poll → PollResponse
  to_poll_response p = record {
    id = lib.uuid_text p.id;
    slug = p.slug;
    question = p.question;
    type = type_text p.type;
    options = map (λ (o : PollOption). o.text) p.options;
    status = status_text p.status;
    opens_at = p.opens_at;
    closes_at = p.closes_at;
    shard_count = p.shard_count;
  }

  -- `login`.
  unfoldable pub login_handler : Option LoginRequest → Moment → Site → Reply
  login_handler none m site = refusal (bad_request ∷ [])
  login_handler (some req) m site =
      elim (login lib tokens (by_login m.io.reading req.login site.admins) req.password
        m.token_now) [ err e ↦ refusal e | ok s ↦ answer 200 (session s.token s.role) ]

  -- `listPolls`.
  unfoldable pub list_handler : Moment → Site → Reply
  list_handler m site = elim (list_all m.io.reading site.polls) [
    | err e ↦ refusal e
    | ok ps ↦ answer 200 (polls_list (map to_poll_response ps))
  ]

  unfoldable pub results_response : Outcome → ResultsResponse
  results_response out = record {
    slug = out.poll.slug;
    status = status_text out.poll.status;
    ballots = out.aggregate.ballots;
    options =
        map
          (λ (o : PollOption). record {
            idx = o.idx;
            text = o.text;
            votes = get out.aggregate.votes o.idx;
            percent = percent floats out.aggregate o.idx;
          })
          out.poll.options;
    final = out.final;
  }

  -- `pollResults`.
  unfoldable pub results_handler : Text → Moment → Site → Reply
  results_handler slug m site = elim (results m.io slug site.polls site.tables) [
    | err e ↦ refusal e
    | ok out ↦ answer 200 (poll_results (results_response out))
  ]

  -- What a call of the poll service leaves, and the answer with the status for success.
  unfoldable pub after_call : ℕ → Moment → Answer → Site → Reply × Site
  after_call status m a site = (
    elim a.result [ err e ↦ refusal e | ok p ↦ answer status (one_poll (to_poll_response p)) ],
    record site { polls = a.rows; audits = record_all m.audit_outage a.audited site.audits },
  )

  -- `createPoll`.
  unfoldable pub create_handler : Text → Option CreatePollRequest → Moment → Site → Reply × Site
  create_handler actor none m site = (refusal (bad_request ∷ []), site)
  create_handler actor (some req) m site = elim (to_spec req) [
    | err e ↦ (refusal e, site)
    | ok spec ↦
        after_call 201 m
          (create_poll floats m.new_uuid m.random lead m.io.writing actor spec m.now site.polls)
          site
  ]

  -- The handler of a route, once the middleware has let the request through, with `actorFrom`.
  unfoldable pub serve : Text → Request → Moment → Site → Reply × Site
  serve actor (login_with req) m site = (login_handler req m site, site)
  serve actor list_polls m site = (list_handler m site, site)
  serve actor (results_of slug) m site = (results_handler slug m site, site)
  serve actor (create_with req) m site = create_handler actor req m site
  serve actor (open_slug slug) m site = after_call 200 m (open_poll m.io actor slug site.polls) site
  serve actor (close_slug slug) m site =
      after_call 200 m (close_poll m.io actor slug m.now m.db_now site.polls) site

  unfoldable pub admitted : Result Claims → Request → Moment → Site → Reply × Site
  admitted (err e) req m site = (refusal e, site)
  admitted (ok claims) req m site = serve claims.subject req m site

  -- A request to `AdminRoutes` with the header Authorization.
  unfoldable pub handle : Text → Request → Moment → Site → Reply × Site
  handle header req m site = elim (required_role req) [
    | none ↦ serve (codes "unknown") req m site
    | some role ↦ admitted (require_role lib tokens m.token_now role header) req m site
  ]
