-- ===== src/PollCfg/Lookup.antt =====
-- What a lookup finds after refreshes.
use televote.Prelude.{
  ℕ, ◌≡◌, ◌≢◌, refl, true, false, List, [], ◌∷◌, ◌==◌, ==_iff, Option, none, some, arith, sym, ap,
  length, is_nil, subst, ◌∙◌, Bool-cases, inl, inr, ◌⊎◌, if◌then◌else◌, ltb,
}
use televote.Prelude.Text.{Text, text_eq, text_eq_iff}
use televote.Errors.{ok}
use televote.Domain.Poll.{Time, Poll, option_count}
use televote.Domain.Choices.{choice_rules}
use televote.Domain.Window.{window}
use televote.PollCfg.{
  HotConfig, Snapshot, Cache, find_slug, find_id, by_slug, by_id, hot_config, store_config, fill,
  refresh,
}

abbrev pub empty_snapshot : Snapshot
empty_snapshot = record { by_slug = []; by_id = [] }

-- No other entry has the slug or the id of a configuration.
abbrev pub IsNew : HotConfig → Snapshot → Type 0
IsNew c snap = (find_slug c.slug snap.by_slug ≡ none) × (find_id c.id snap.by_id ≡ none)

-- What a lookup under a new first entry finds: that entry, or what it found before.
slug_hit :
    (s k : Text) (c d : HotConfig) (m : List (Text × HotConfig))
    → find_slug s ((k, c) ∷ m) ≡ some d
    → ((text_eq k s ≡ true) × (c ≡ d)) ⊎ ((text_eq k s ≡ false) × (find_slug s m ≡ some d))
unfolding find_slug
slug_hit s k c d m h = ground arith

id_hit :
    (i k : ℕ) (c d : HotConfig) (m : List (ℕ × HotConfig))
    → find_id i ((k, c) ∷ m) ≡ some d
    → (((k == i) ≡ true) × (c ≡ d)) ⊎ (((k == i) ≡ false) × (find_id i m ≡ some d))
unfolding find_id
id_hit i k c d m h = ground arith

slug_under :
    (s k : Text) (c : HotConfig) (m : List (Text × HotConfig))
    → text_eq k s ≡ false
    → find_slug s ((k, c) ∷ m) ≡ find_slug s m
unfolding find_slug
slug_under s k c m e = rw e refl

id_under :
    (i k : ℕ) (c : HotConfig) (m : List (ℕ × HotConfig))
    → (k == i) ≡ false
    → find_id i ((k, c) ∷ m) ≡ find_id i m
unfolding find_id
id_under i k c m e = rw e refl

slug_top :
    (k : Text) (c : HotConfig) (m : List (Text × HotConfig)) → find_slug k ((k, c) ∷ m) ≡ some c
unfolding find_slug
slug_top k c m = rw ((text_eq_iff k k).1 refl) refl

id_top : (k : ℕ) (c : HotConfig) (m : List (ℕ × HotConfig)) → find_id k ((k, c) ∷ m) ≡ some c
unfolding find_id
id_top k c m = rw ((==_iff k k).1 refl) refl

found_none : (c : HotConfig) → none ≢ some c
found_none c h = cc

-- A configuration that an older entry has is not the new one.
id_apart :
    (c d : HotConfig) (m : List (ℕ × HotConfig))
    → find_id c.id m ≡ none
    → find_id d.id m ≡ some d
    → (c.id == d.id) ≡ false
id_apart c d m new old = elim (Bool-cases (c.id == d.id)) [
  | inr e ↦ e
  | inl e ↦ absurd (found_none _ (sym new ∙ ap (λ i. find_id i m) ((==_iff c.id d.id).0 e) ∙ old))
]

slug_apart :
    (c d : HotConfig) (m : List (Text × HotConfig))
    → find_slug c.slug m ≡ none
    → find_slug d.slug m ≡ some d
    → text_eq c.slug d.slug ≡ false
slug_apart c d m new old = elim (Bool-cases (text_eq c.slug d.slug)) [
  | inr e ↦ e
  | inl e ↦
      absurd
        (found_none _ (sym new ∙ ap (λ s. find_slug s m) ((text_eq_iff c.slug d.slug).0 e) ∙ old))
]

-- Every configuration that a list of polls makes is new when it is stored.
unfoldable pub AllNew : Snapshot → List (Option Poll) → Type 0
AllNew snap [] = Unit {0}
AllNew snap (p ∷ polls) =
    ((c : HotConfig) → hot_config p ≡ some c → IsNew c snap)
    × AllNew (store_config (hot_config p) snap) polls

-- The configuration of a poll, written out.
abbrev pub shown : Poll → HotConfig
shown p = record {
  id = p.id;
  slug = p.slug;
  question = p.question;
  options = p.options;
  rules = record {
    type = p.type;
    min_choices = p.min_choices;
    max_choices = p.max_choices;
    option_count = if ltb 255 (length p.options) then 255 else length p.options;
  };
  window = record { opens_at = p.opens_at; closes_at = p.closes_at; status = p.status };
  shard_count = p.shard_count;
  salt = p.salt;
}

abbrev pub Listed : Poll → List (Option Poll) → Type 0
Listed p [] = ⊥
Listed p (q ∷ polls) = (q ≡ some p) ⊎ Listed p polls

-- Both lookups find the configuration.
abbrev Has : HotConfig → Snapshot → Type 0
Has c snap = (find_slug c.slug snap.by_slug ≡ some c) × (find_id c.id snap.by_id ≡ some c)

store-Has :
    (c : HotConfig) (o : Option HotConfig) (snap : Snapshot)
    → ((d : HotConfig) → o ≡ some d → IsNew d snap)
    → Has c snap
    → Has c (store_config o snap)
store-Has c none snap new h = h
store-Has c (some d) snap new h =
    let fresh = new d refl in
    (
      slug_under c.slug d.slug d snap.by_slug (slug_apart d c snap.by_slug fresh.0 h.0) ∙ h.0,
      id_under c.id d.id d snap.by_id (id_apart d c snap.by_id fresh.1 h.1) ∙ h.1,
    )

fill-Has :
    (c : HotConfig) (snap : Snapshot) (polls : List (Option Poll))
    → AllNew snap polls
    → Has c snap
    → Has c (fill snap polls)
unfolding fill AllNew
fill-Has c snap [] new h = h
fill-Has c snap (p ∷ polls) (new, rest) h =
    fill-Has c (store_config (hot_config p) snap) polls rest (store-Has c (hot_config p) snap new h)

fill-Listed :
    (snap : Snapshot) (polls : List (Option Poll)) (p : Poll)
    → AllNew snap polls
    → Listed p polls
    → hot_config (some p) ≡ some (shown p)
    → Has (shown p) (fill snap polls)
unfolding fill AllNew
fill-Listed snap [] p new l h = absurd l
fill-Listed snap (q ∷ polls) p (new, rest) (inr l) h =
    fill-Listed (store_config (hot_config q) snap) polls p rest l h
fill-Listed snap (q ∷ polls) p (new, rest) (inl e) h =
    fill-Has (shown p) (store_config (hot_config q) snap) polls rest (
      subst (λ o. Has (shown p) (store_config o snap)) (sym (ap hot_config e ∙ h))
        (slug_top p.slug (shown p) snap.by_slug, id_top p.id (shown p) snap.by_id))

option_count_lem :
    (p : Poll) → option_count p ≡ (if ltb 255 (length p.options) then 255 else length p.options)
unfolding option_count
option_count_lem p = ground arith

hot_config-shown :
    (p : Poll) → is_nil p.slug ≡ false → p.id ≢ 0 → hot_config (some p) ≡ some (shown p)
unfolding hot_config choice_rules window
hot_config-shown p named numbered = elim (Bool-cases (p.id == 0)) [
  | inl e ↦ absurd (numbered ((==_iff p.id 0).0 e))
  | inr e ↦ rw (named, e, option_count_lem p) refl
]

hot_config-cases :
    (p : Poll) → (hot_config (some p) ≡ none) ⊎ (hot_config (some p) ≡ some (shown p))
unfolding hot_config choice_rules window
hot_config-cases p = elim (Bool-cases (is_nil p.slug)) [
  | inl e ↦ inl (rw e refl)
  | inr e ↦ elim (Bool-cases (p.id == 0)) [
    | inl z ↦ inl (rw (e, z) refl)
    | inr z ↦ inr (rw (e, z, option_count_lem p) refl)
  ]
]

-- A configuration is one of a listed poll.
abbrev pub Shows : HotConfig → List (Option Poll) → Type 0
Shows c polls = (p : Poll) × Listed p polls × (c ≡ shown p)

deeper :
    (c : HotConfig) (q : Option Poll) (polls : List (Option Poll))
    → Shows c polls
    → Shows c (q ∷ polls)
deeper c q polls (p, l, e) = (p, inr l, e)

-- What a poll adds: nothing, or its own configuration.
adds :
    (q : Option Poll)
    → (hot_config q ≡ none) ⊎ ((p : Poll) × (q ≡ some p) × (hot_config q ≡ some (shown p)))
unfolding hot_config
adds none = inl refl
adds (some p) = elim (hot_config-cases p) [ inl e ↦ inl e | inr e ↦ inr (p, refl, e) ]

store-slug :
    (q : Option Poll) (polls : List (Option Poll)) (snap : Snapshot) (s : Text) (c : HotConfig)
    → find_slug s (store_config (hot_config q) snap).by_slug ≡ some c
    → (find_slug s snap.by_slug ≡ some c) ⊎ ((c.slug ≡ s) × Shows c (q ∷ polls))
store-slug q polls snap s c h = elim (adds q) [
  | inl e ↦ inl (subst (λ o. find_slug s (store_config o snap).by_slug ≡ some c) e h)
  | inr (p, same, e) ↦
      elim (slug_hit s p.slug (shown p) c snap.by_slug
        (subst (λ o. find_slug s (store_config o snap).by_slug ≡ some c) e h)) [
          | inl (k, own) ↦ inr (
            sym (ap (λ (x : HotConfig). x.slug) own) ∙ (text_eq_iff p.slug s).0 k,
            (p, inl same, sym own),
          )
          | inr (k, old) ↦ inl old
        ]
]

store-id :
    (q : Option Poll) (polls : List (Option Poll)) (snap : Snapshot) (i : ℕ) (c : HotConfig)
    → find_id i (store_config (hot_config q) snap).by_id ≡ some c
    → (find_id i snap.by_id ≡ some c) ⊎ ((c.id ≡ i) × Shows c (q ∷ polls))
store-id q polls snap i c h = elim (adds q) [
  | inl e ↦ inl (subst (λ o. find_id i (store_config o snap).by_id ≡ some c) e h)
  | inr (p, same, e) ↦
      elim (id_hit i p.id (shown p) c snap.by_id
        (subst (λ o. find_id i (store_config o snap).by_id ≡ some c) e h)) [
          | inl (k, own) ↦
              inr (
                sym (ap (λ (x : HotConfig). x.id) own) ∙ (==_iff p.id i).0 k,
                (p, inl same, sym own),
              )
          | inr (k, old) ↦ inl old
        ]
]

fill-slug :
    (snap : Snapshot) (polls : List (Option Poll)) (s : Text) (c : HotConfig)
    → find_slug s (fill snap polls).by_slug ≡ some c
    → (find_slug s snap.by_slug ≡ some c) ⊎ ((c.slug ≡ s) × Shows c polls)
unfolding fill
fill-slug snap [] s c h = inl h
fill-slug snap (q ∷ polls) s c h = elim (fill-slug (store_config (hot_config q) snap) polls s c h) [
  | inl e ↦ store-slug q polls snap s c e
  | inr (k, found) ↦ inr (k, deeper c q polls found)
]

fill-id :
    (snap : Snapshot) (polls : List (Option Poll)) (i : ℕ) (c : HotConfig)
    → find_id i (fill snap polls).by_id ≡ some c
    → (find_id i snap.by_id ≡ some c) ⊎ ((c.id ≡ i) × Shows c polls)
unfolding fill
fill-id snap [] i c h = inl h
fill-id snap (q ∷ polls) i c h = elim (fill-id (store_config (hot_config q) snap) polls i c h) [
  | inl e ↦ store-id q polls snap i c e
  | inr (k, found) ↦ inr (k, deeper c q polls found)
]

slug_nowhere : (s : Text) (c : HotConfig) → find_slug s [] ≢ some c
unfolding find_slug
slug_nowhere s c h = cc

id_nowhere : (i : ℕ) (c : HotConfig) → find_id i [] ≢ some c
unfolding find_id
id_nowhere i c h = cc

-- After a refresh the lookups hold the polls that were listed and nothing else. Where no two configurations of
-- the list share a slug or an id, every listed poll with a slug and an id other than 0 is found by both, with
-- its own question, options, rules, window, shards and salt; and whatever a slug or an id finds has that slug
-- or id and is the configuration of a listed poll, whatever the cache held before.
pub refresh-lookups :
    (cache : Cache) (now : Time) (polls : List (Option Poll))
    → AllNew empty_snapshot polls
    → let c' = (refresh (ok polls) now cache).1 in
      ((p : Poll)
        → Listed p polls
        → is_nil p.slug ≡ false
        → p.id ≢ 0
        → (by_slug c' p.slug ≡ some (shown p)) × (by_id c' p.id ≡ some (shown p)))
      × ((s : Text) (c : HotConfig) → by_slug c' s ≡ some c → (c.slug ≡ s) × Shows c polls)
      × ((i : ℕ) (c : HotConfig) → by_id c' i ≡ some c → (c.id ≡ i) × Shows c polls)
unfolding refresh by_slug by_id
refresh-lookups cache now polls new = (
  λ p l named numbered.
      fill-Listed empty_snapshot polls p new l (hot_config-shown p named numbered),
  λ s c h. elim (fill-slug empty_snapshot polls s c h) [
    | inl e ↦ absurd (slug_nowhere s c e)
    | inr found ↦ found
  ],
  λ i c h. elim (fill-id empty_snapshot polls i c h) [
    | inl e ↦ absurd (id_nowhere i c e)
    | inr found ↦ found
  ],
)
