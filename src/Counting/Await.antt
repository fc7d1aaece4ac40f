-- ===== src/Counting/Await.antt =====
-- Waiting for a poll's configuration comes to an end.
use televote.Prelude.{
  ◌+◌, ◌*◌, ◌≤◌, ◌≡◌, ◌≢◌, refl, true, List, [], ◌∷◌, Option, none, some, arith, length, ◌⊎◌, inl,
  inr,
}
use televote.Domain.Poll.{Time}
use televote.PollCfg.{HotConfig}
use televote.Counting.{Poke, lookup_poll_interval, await_loop, await_config}

-- Every turn begins a poll interval or more after the one before it.
abbrev pub Spaced : Time → List Poke → Type 0
Spaced start [] = Unit {0}
Spaced start (p ∷ pokes) = (start ≤ p.at) × Spaced (p.at + lookup_poll_interval) pokes

-- What a turn may answer with.
abbrev pub Named : HotConfig → List Poke → Type 0
Named cfg [] = ⊥
Named cfg (p ∷ pokes) = (p.found ≡ some cfg) ⊎ Named cfg pokes

answers :
    (deadline start : Time) (p : Poke) (pokes : List Poke)
    → deadline ≤ start + lookup_poll_interval * length pokes
    → Spaced start (p ∷ pokes)
    → await_loop deadline (p ∷ pokes) ≢ none
unfolding await_loop
answers deadline start p [] h sp = ground arith
answers deadline start p (q ∷ pokes) h sp =
    let ih = answers deadline (p.at + lookup_poll_interval) q pokes (omega arith) sp.1 in
    ground arith

await_loop-Named :
    (deadline : Time) (pokes : List Poke) (cfg : HotConfig)
    → await_loop deadline pokes ≡ some (some cfg)
    → Named cfg pokes
unfolding await_loop
await_loop-Named deadline [] cfg h = ground arith
await_loop-Named deadline (p ∷ pokes) cfg h =
    let ih = await_loop-Named deadline pokes cfg in ground arith

-- A turn gives up, those before it having found nothing: the deadline has come, or the context is done.
abbrev pub GivesUp : Time → List Poke → Type 0
GivesUp deadline [] = ⊥
GivesUp deadline (p ∷ pokes) =
    (deadline ≤ p.at) ⊎ (p.cancelled ≡ true) ⊎ ((p.found ≡ none) × GivesUp deadline pokes)

await_loop-GivesUp :
    (deadline : Time) (pokes : List Poke)
    → await_loop deadline pokes ≡ some none
    → GivesUp deadline pokes
unfolding await_loop
await_loop-GivesUp deadline [] h = absurd cc
await_loop-GivesUp deadline (p ∷ pokes) h =
    let ih = await_loop-GivesUp deadline pokes in ground arith

-- Waiting ends: turns that begin 250 ms or more apart give an answer once they would outlast the budget,
-- so a deadline `n` intervals away is met within `n + 1` turns. A configuration that the first lookup
-- finds is answered, with no turn; any other that is answered was found by one of the turns. That there is
-- none is answered only when the first lookup has found none and a turn meets the deadline or the end of
-- the context, the turns before it having found none either.
pub await_config-ends :
    (first : Option HotConfig) (deadline start : Time) (p : Poke) (pokes : List Poke)
    → deadline ≤ start + lookup_poll_interval * length pokes
    → Spaced start (p ∷ pokes)
    → (await_config first deadline (p ∷ pokes) ≢ none)
      × ((cfg : HotConfig)
          → first ≡ some cfg
          → (turns : List Poke) → await_config first deadline turns ≡ some (some cfg))
      × ((cfg : HotConfig)
          → await_config first deadline (p ∷ pokes) ≡ some (some cfg)
          → (first ≡ some cfg) ⊎ ((first ≡ none) × Named cfg (p ∷ pokes)))
      × (await_config first deadline (p ∷ pokes) ≡ some none
          → (first ≡ none) × GivesUp deadline (p ∷ pokes))
unfolding await_config
await_config-ends none deadline start p pokes h sp = (
  answers deadline start p pokes h sp,
  λ cfg e. absurd cc,
  λ cfg e. inr (refl, await_loop-Named deadline (p ∷ pokes) cfg e),
  λ e. (refl, await_loop-GivesUp deadline (p ∷ pokes) e),
)
await_config-ends (some c) deadline start p pokes h sp =
    (λ e. cc, λ cfg e turns. cc, λ cfg e. inl cc, λ e. absurd cc)
