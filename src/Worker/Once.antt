-- ===== src/Worker/Once.antt =====
-- The goroutines of a batch, interleaved in any way, count every voter once.
use televote.Prelude.{
  ℕ, ◌+◌, ◌≡◌, refl, Bool, true, List, [], ◌∷◌, All, All-imp, Bool-cases, inl, inr, ap, ◌∙◌, subst,
}
use televote.Prelude.Text.{Text}
use televote.Floats.{Floats}
use televote.Errors.{ok, err}
use televote.Domain.Poll.{Sharding}
use televote.Domain.Voter.{VoterId, parse_voter_id, text_in}
use televote.PollCfg.{HotConfig, config_sharding}
use televote.Redis.Server.{Server, IsRedis}
use televote.Redis.Keys.{counter_key}
use televote.Redis.Keys.Slots.{IsUuidText}
use televote.Redis.Tally.{Tally}
use televote.Redis.Tally.Apply.{TruncFits}
use televote.Redis.Tally.Ledger.{Attempt, reaches, counts_now, counted, total, voters, CountedOnce}
use televote.Redis.Tally.Once.{process, Timely, Untouched, exactly_once}
use televote.Worker.{Entry, End, malformed, returned, Event, batch_of, run}
use televote.Worker.Jobs.{Among, Sent, EventFinds}
use televote.Worker.Trail.{trail}
use televote.Worker.Sound.{Reached, Recorded, Sound, run-Sound}

All-Among :
    (x : Entry) (records : List Entry) (xs : List Entry)
    → All (λ y. Among y records) xs
    → All (λ y. Among y (x ∷ records)) xs
All-Among x records xs h = All-imp xs (λ y (m : Among y records). inr m) h

Among-All : (records : List Entry) → All (λ x. Among x records) records
Among-All [] = tt
Among-All (x ∷ xs) = (inl refl, All-Among x xs xs (Among-All xs))

module _ (sum64 : List ℕ → ℕ) (target : Sharding) where
  -- A vote that is said to be counted stands among the counted ones.
  abbrev pub Acknowledged : List Attempt → End → Type 0
  Acknowledged ys malformed = Unit {0}
  Acknowledged ys (returned msg (err e)) = Unit {0}
  Acknowledged ys (returned msg (ok n)) =
      (v : VoterId) × (parse_voter_id msg.voter_id ≡ ok v)
      × (text_in v (voters sum64 target ys) ≡ true)

  All-counted :
      (P : Attempt → Type 0) (seen : List VoterId) (xs : List Attempt)
      → All P xs
      → All P (counted sum64 target seen xs)
  unfolding counted
  All-counted P seen [] h = tt
  All-counted P seen (a ∷ xs) h = elim (Bool-cases (counts_now sum64 target seen a)) [
    | inl now ↦ rw now (h.0, All-counted P (a.voter ∷ seen) xs h.1)
    | inr not_now ↦ rw not_now (All-counted P seen xs h.1)
  ]

  Reached-voters :
      (v : VoterId) (ys xs : List Attempt)
      → Reached sum64 target v xs
      → All
          (λ a. reaches sum64 target a ≡ true → text_in a.voter (voters sum64 target ys) ≡ true)
          xs
      → text_in v (voters sum64 target ys) ≡ true
  Reached-voters v ys [] h k = elim h [ ]
  Reached-voters v ys (a ∷ xs) (inl (ran, same)) k =
      subst (λ w. text_in w (voters sum64 target ys) ≡ true) same (k.0 ran)
  Reached-voters v ys (a ∷ xs) (inr h) k = Reached-voters v ys xs h k.1

  Recorded-Acknowledged :
      (ys xs : List Attempt) (e : End)
      → All
          (λ a. reaches sum64 target a ≡ true → text_in a.voter (voters sum64 target ys) ≡ true)
          xs
      → Recorded sum64 target xs e
      → Acknowledged ys e
  Recorded-Acknowledged ys xs malformed k h = tt
  Recorded-Acknowledged ys xs (returned msg (err e)) k h = tt
  Recorded-Acknowledged ys xs (returned msg (ok n)) k (v, parsed, h) =
      (v, parsed, Reached-voters v ys xs h k)

module _ (floats : Floats) (r : Server) (sum64 : List ℕ → ℕ) (uuid_text : ℕ → Text) (t : Tally)
    (redis : IsRedis r) (uuids : IsUuidText uuid_text) (fits : TruncFits floats) where
  -- The goroutines of a batch count every voter once, in whatever order they move. On a store without a
  -- counted vote of the poll, let a batch of records of the poll be handled, where no configuration but the
  -- poll's is found and the calls reach the server in order of time, by voter ids of 16 bytes, and while
  -- dedup keys live. Then, at any moment, every field of every shard's counter as read at the horizon has
  -- grown by what the counted votes name. No voter is counted twice, every counted vote is the one of a
  -- record of the batch, and whoever's vote `Count` has returned as counted is among them.
  pub run-once :
      (cfg : HotConfig) (workers : ℕ) (es : List Event) (records : List Entry) (cancelled : Bool)
      (horizon now : ℕ) (base : ℕ → Text → ℕ) (s : r.Store)
      → All (EventFinds cfg) es
      → Untouched floats r sum64 uuid_text t (config_sharding cfg) horizon now base s
      → Timely floats r sum64 uuid_text t
          (config_sharding cfg)
          horizon
          now
          (trail floats r sum64 uuid_text t workers es (batch_of records cancelled s))
      → let b = run floats r sum64 uuid_text t workers es (batch_of records cancelled s) in
        let ys =
          counted sum64
            (config_sharding cfg)
            []
            (trail floats r sum64 uuid_text t workers es (batch_of records cancelled s)) in
        ((shard : ℕ) (f : Text)
          → r.field (counter_key uuid_text cfg.id shard) f horizon b.store
            ≡ base shard f + total sum64 (config_sharding cfg) ys shard f)
        × CountedOnce sum64 (config_sharding cfg) [] ys
        × All (Sent records) ys
        × All (Acknowledged sum64 (config_sharding cfg) ys) b.ended
  run-once cfg workers es records cancelled horizon now base s f u ti =
      let b = batch_of records cancelled s in
      let xs = trail floats r sum64 uuid_text t workers es b in
      let ys = counted sum64 (config_sharding cfg) [] xs in
      let start : Sound floats r sum64 uuid_text t cfg records [] b =
        unfold batch_of in
        record { waiting = Among-All records; jobs = tt; sent = tt; recorded = tt } in
      let (sound, stored) =
        run-Sound floats r sum64 uuid_text t cfg records [] workers es b f start in
      let kept : (run floats r sum64 uuid_text t workers es b).store
          ≡ process floats r sum64 uuid_text t (config_sharding cfg) xs s =
        unfold batch_of in stored in
      let (reads, once, all) =
        exactly_once floats r sum64 uuid_text t (config_sharding cfg) redis uuids fits horizon now
          base xs s u ti in
      (
        (λ shard n.
            ap (λ x. r.field (counter_key uuid_text cfg.id shard) n horizon x) kept
            ∙ unfold config_sharding in reads shard n),
        once,
        All-counted sum64 (config_sharding cfg) (Sent records) [] xs sound.sent,
        All-imp (run floats r sum64 uuid_text t workers es b).ended
            (λ e (h : Recorded sum64 (config_sharding cfg) xs e).
              Recorded-Acknowledged sum64 (config_sharding cfg) ys xs e all h)
            sound.recorded,
      )
