-- ===== src/Http/Admin/Guarded.antt =====
-- Who may change the tables through the admin's part of the API, and what is left behind.
use televote.Prelude.{
  ℕ, ◌≡◌, refl, ◌||◌, List, [], ◌∷◌, ◌++◌, Option, none, some, ◌⊎◌, inl, inr, arith, is_nil,
  Bool-cases, Option-cases, sym, ap, ◌∙◌, subst,
}
use mathlib.Core.List.{append-nil, append_assoc}
use televote.Prelude.Text.{Text, codes}
use televote.Floats.{Floats}
use televote.Errors.{ok, err, Failure, is, unauthorized, forbidden, Result-cases}
use televote.Domain.Poll.{Time, Duration}
use televote.Auth.{Libraries, TokenService, Claims, require_role, admit}
use televote.Postgres.Admins.{write_audit}
use televote.PollService.{Audit, Answer, create_poll, open_poll, close_poll}
use televote.PollService.Audited.{By, create_poll-By, open_poll-By, close_poll-By}
use televote.Http.{classify}
use televote.Http.Admin.{
  Site, Moment, Request, login_with, list_polls, results_of, create_with, open_slug, close_slug,
  CreatePollRequest, to_spec, required_role, Reply, refusal, record_all, after_call, create_handler,
  serve, admitted, handle,
}

-- Nothing has happened but that the polls may have changed, and that records of the actor were added.
abbrev pub Signed : Text → Site → Site → Type 0
Signed actor before after =
    (new : List Audit) × (after.audits ≡ before.audits ++ new)
    × By actor new
    × (after.admins ≡ before.admins)
    × (after.tables ≡ before.tables)

write_audit-cases :
    (outage : Option Failure) (a : Audit) (audits : List Audit)
    → ((write_audit outage a audits).1 ≡ audits)
      ⊎ ((write_audit outage a audits).1 ≡ audits ++ a ∷ [])
unfolding write_audit
write_audit-cases outage a audits =
    elim (Bool-cases (is_nil a.actor || is_nil a.action || is_nil a.entity)) [
      | inl bad ↦ rw bad (inl refl)
      | inr good ↦ elim (Option-cases outage) [
        | inl works ↦ rw (good, works) (inr refl)
        | inr (e, fails) ↦ rw (good, fails) (inl refl)
      ]
    ]

written :
    (actor : Text) (outage : Option Failure) (new audits : List Audit)
    → By actor new
    → (kept : List Audit) × (record_all outage new audits ≡ audits ++ kept) × By actor kept
unfolding record_all
written actor outage [] audits h = ([], sym (append-nil audits), tt)
written actor outage (a ∷ new) audits h = elim (write_audit-cases outage a audits) [
  | inl same ↦ rw same (written actor outage new audits h.1)
  | inr more ↦
      let (kept, made, by) = written actor outage new (audits ++ a ∷ []) h.1 in
      rw more (a ∷ kept, made ∙ append_assoc audits (a ∷ []) kept, (h.0, by))
]

module _ (floats : Floats) (lib : Libraries) (tokens : TokenService) (lead : Duration) where
  after_call-Signed :
      (actor : Text) (status : ℕ) (m : Moment) (a : Answer) (site : Site)
      → By actor a.audited
      → Signed actor site (after_call floats lib tokens lead status m a site).1
  unfolding after_call
  after_call-Signed actor status m a site by =
      let (kept, made, all) = written actor m.audit_outage a.audited site.audits by in
      (kept, made, all, refl, refl)

  untouched : (actor : Text) (site : Site) → Signed actor site site
  untouched actor site = ([], sym (append-nil site.audits), tt, refl, refl)

  create-Signed :
      (actor : Text) (req : Option CreatePollRequest) (m : Moment) (site : Site)
      → Signed actor site (create_handler floats lib tokens lead actor req m site).1
  unfolding create_handler
  create-Signed actor none m site = untouched actor site
  create-Signed actor (some req) m site = elim (Result-cases (to_spec req)) [
    | inr (e, bad) ↦ rw (bad, create_handler) (untouched actor site)
    | inl (spec, good) ↦
        rw (good, create_handler)
          (after_call-Signed actor 201 m
            (create_poll floats m.new_uuid m.random lead m.io.writing actor spec m.now site.polls)
            site
            (create_poll-By floats m.new_uuid m.random lead m.io.writing actor spec m.now
              site.polls))
  ]

  serve-Signed :
      (actor : Text) (req : Request) (m : Moment) (site : Site)
      → Signed actor site (serve floats lib tokens lead actor req m site).1
  unfolding serve
  serve-Signed actor (login_with req) m site = untouched actor site
  serve-Signed actor list_polls m site = untouched actor site
  serve-Signed actor (results_of slug) m site = untouched actor site
  serve-Signed actor (create_with req) m site = create-Signed actor req m site
  serve-Signed actor (open_slug slug) m site =
      after_call-Signed actor 200 m (open_poll m.io actor slug site.polls) site
        (open_poll-By m.io actor slug site.polls)
  serve-Signed actor (close_slug slug) m site =
      after_call-Signed actor 200 m (close_poll m.io actor slug m.now m.db_now site.polls) site
        (close_poll-By m.io actor slug m.now m.db_now site.polls)

  abbrev pub Harmless : Text → Request → Moment → Site → Type 0
  Harmless header req m site =
      ((handle floats lib tokens lead header req m site).1 ≡ site)
      ⊎ ((claims : Claims) × (require_role lib tokens m.token_now (codes "editor") header
            ≡ ok claims)
          × Signed claims.subject site (handle floats lib tokens lead header req m site).1)

  reading :
      (role header : Text) (req : Request) (m : Moment) (site : Site)
      → ((actor : Text) → (serve floats lib tokens lead actor req m site).1 ≡ site)
      → (admitted floats lib tokens lead
          (require_role lib tokens m.token_now role header)
          req
          m
          site).1
        ≡ site
  unfolding admitted
  reading role header req m site h =
      elim (Result-cases (require_role lib tokens m.token_now role header)) [
        | inr (e, no_role) ↦ rw (no_role, admitted) refl
        | inl (claims, role_ok) ↦ rw (role_ok, admitted) (h claims.subject)
      ]

  editing :
      (header : Text) (req : Request) (m : Moment) (site : Site)
      → let x =
          admitted floats lib tokens lead
            (require_role lib tokens m.token_now (codes "editor") header)
            req
            m
            site in
        (x.1 ≡ site)
        ⊎ ((claims : Claims) × (require_role lib tokens m.token_now (codes "editor") header
              ≡ ok claims)
            × Signed claims.subject site x.1)
  unfolding admitted
  editing header req m site =
      elim (Result-cases (require_role lib tokens m.token_now (codes "editor") header)) [
        | inr (e, no_role) ↦ inl (rw (no_role, admitted) refl)
        | inl (claims, role_ok) ↦
            inr (claims, role_ok, rw (role_ok, admitted) (serve-Signed claims.subject req m site))
      ]

  harmless : (header : Text) (req : Request) (m : Moment) (site : Site) → Harmless header req m site
  unfolding handle required_role serve
  harmless header (login_with req) m site = inl refl
  harmless header list_polls m site =
      inl (reading (codes "viewer") header list_polls m site (λ actor. refl))
  harmless header (results_of slug) m site =
      inl (reading (codes "viewer") header (results_of slug) m site (λ actor. refl))
  harmless header (create_with req) m site = editing header (create_with req) m site
  harmless header (open_slug slug) m site = editing header (open_slug slug) m site
  harmless header (close_slug slug) m site = editing header (close_slug slug) m site

  refused :
      (header role : Text) (req : Request) (m : Moment) (site : Site) {e : Failure}
      → required_role req ≡ some role
      → require_role lib tokens m.token_now role header ≡ err e
      → handle floats lib tokens lead header req m site ≡ (refusal e, site)
  unfolding handle admitted
  refused header role req m site h k = rw (h, handle, k, admitted) refl

  denied :
      (now : Time) (role header : Text) {e : Failure}
      → require_role lib tokens now role header ≡ err e
      → (e ≡ unauthorized ∷ []) ⊎ (e ≡ forbidden ∷ [])
  unfolding require_role admit
  denied now role header h = ground arith

  denied_status :
      {e : Failure}
      → (e ≡ unauthorized ∷ []) ⊎ (e ≡ forbidden ∷ [])
      → ((refusal e).status ≡ 401) ⊎ ((refusal e).status ≡ 403)
  unfolding refusal classify is
  denied_status (inl e) = inl (rw e refl)
  denied_status (inr e) = inr (rw e refl)

  -- The route asks for no role, or the header has it, or the answer is 401 or 403 and nothing changes.
  abbrev pub Screened : Text → Request → Moment → Site → Type 0
  Screened header req m site =
      (required_role req ≡ none)
      ⊎ ((role : Text) × (required_role req ≡ some role)
          × (((claims : Claims) × (require_role lib tokens m.token_now role header ≡ ok claims))
              ⊎ ((((handle floats lib tokens lead header req m site).0.status ≡ 401)
                    ⊎ ((handle floats lib tokens lead header req m site).0.status ≡ 403))
                  × ((handle floats lib tokens lead header req m site).1 ≡ site))))

  screened : (header : Text) (req : Request) (m : Moment) (site : Site) → Screened header req m site
  screened header req m site = elim (Option-cases (required_role req)) [
    | inl open_to_all ↦ inl open_to_all
    | inr (role, h) ↦ elim (Result-cases (require_role lib tokens m.token_now role header)) [
      | inl (claims, k) ↦ inr (role, h, inl (claims, k))
      | inr (e, k) ↦
          let done = refused header role req m site h k in
          inr (
            role,
            h,
            inr (
              subst (λ (x : Reply × Site). (x.0.status ≡ 401) ⊎ (x.0.status ≡ 403)) (sym done)
                  (denied_status (denied m.token_now role header k)),
              ap (λ (x : Reply × Site). x.1) done,
            ),
          )
    ]
  ]

  -- Nobody changes a table without the editor's role. Whatever the request and its header Authorization, either
  -- no table changes, or the header carries a token that is read as claims with the editor's role or more; then
  -- the administrators and the tallies stay as they are, and what is added to the audit is in the name of the
  -- token's subject. A request without the role that its route requires is answered with 401 or 403, and
  -- changes nothing.
  pub handle-Guarded :
      (header : Text) (req : Request) (m : Moment) (site : Site)
      → Harmless header req m site × Screened header req m site
  handle-Guarded header req m site = (harmless header req m site, screened header req m site)
