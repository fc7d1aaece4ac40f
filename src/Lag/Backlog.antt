-- ===== src/Lag/Backlog.antt =====
-- What the lag adds up to.
use televote.Prelude.{
  ℕ, ◌+◌, ◌^◌, ◌<◌, ◌≡◌, refl, Bool, true, false, [], ◌∷◌, some, arith, ap, ◌∙◌, Bool-cases, inl,
  inr, if◌then◌else◌, is_nil, ◌==◌,
}
use televote.Prelude.Int.{ℤ, pos, negsuc, pos_part, add64, add64-pos, ltb_ℤ}
use televote.Prelude.Text.{Text, text_eq}
use televote.Errors.{ok, err, Failure}
use televote.Snapshot.{drained}
use televote.Lag.{Partitions, Topics, Groups, add_partitions, add_topics, add_groups, consumer_lag}

-- The votes that wait in the partitions, a lag of -1 counting as none.
unfoldable pub waiting : Partitions → ℕ
waiting [] = 0
waiting (n ∷ ns) = pos_part n + waiting ns

unfoldable pub of_topic : Text → Topics → ℕ
of_topic topic [] = 0
of_topic topic ((name, partitions) ∷ topics) =
    (if text_eq name topic then waiting partitions else 0) + of_topic topic topics

unfoldable pub backlog : Text → Groups → ℕ
backlog topic [] = 0
backlog topic ((name, topics) ∷ groups) = of_topic topic topics + backlog topic groups

add_one :
    (n : ℤ) (t : ℕ)
    → t + pos_part n < 2 ^ 63
    → (if ltb_ℤ (pos 0) n then add64 (pos t) n else pos t) ≡ pos (t + pos_part n)
add_one (pos n) t h = elim (Bool-cases (ltb_ℤ (pos 0) (pos n))) [
  | inl some_wait ↦ rw some_wait (add64-pos t n h)
  | inr none_wait ↦ rw none_wait (ap pos (ground arith))
]
add_one (negsuc n) t h = elim (Bool-cases (ltb_ℤ (pos 0) (negsuc n))) [
  | inl above ↦ absurd (ground arith)
  | inr below ↦ rw below (ap pos (omega arith))
]

add_partitions-waiting :
    (ns : Partitions) (t : ℕ)
    → t + waiting ns < 2 ^ 63
    → add_partitions ns (pos t) ≡ pos (t + waiting ns)
unfolding add_partitions waiting
add_partitions-waiting [] t h = ap pos (omega arith)
add_partitions-waiting (n ∷ ns) t h =
    ap (add_partitions ns) (add_one n t (omega (arith, h)))
    ∙ add_partitions-waiting ns (t + pos_part n) (omega (arith, h))
    ∙ ap pos (omega arith)

if-yes : (b : Bool) (n rest : ℕ) → b ≡ true → (if b then n else 0) + rest ≡ n + rest
if-yes b n rest e = rw e refl

if-no : (b : Bool) (n rest : ℕ) → b ≡ false → (if b then n else 0) + rest ≡ rest
if-no b n rest e = rw e (omega arith)

add_topics-of_topic :
    (topic : Text) (ts : Topics) (t : ℕ)
    → t + of_topic topic ts < 2 ^ 63
    → add_topics topic ts (pos t) ≡ pos (t + of_topic topic ts)
unfolding add_topics of_topic
add_topics-of_topic topic [] t h = ap pos (omega arith)
add_topics-of_topic topic ((name, ns) ∷ ts) t h = elim (Bool-cases (text_eq name topic)) [
  | inl e ↦
      let same = if-yes (text_eq name topic) (waiting ns) (of_topic topic ts) e in
      rw e (
        ap (add_topics topic ts) (add_partitions-waiting ns t (omega (arith, h, same)))
        ∙ add_topics-of_topic topic ts (t + waiting ns) (omega (arith, h, same))
        ∙ ap pos (omega arith))
  | inr e ↦
      let same = if-no (text_eq name topic) (waiting ns) (of_topic topic ts) e in
      rw e (add_topics-of_topic topic ts t (omega (arith, h, same)) ∙ ap pos (omega arith))
]

add_groups-backlog :
    (topic : Text) (gs : Groups) (t : ℕ)
    → t + backlog topic gs < 2 ^ 63
    → add_groups topic gs (pos t) ≡ pos (t + backlog topic gs)
unfolding add_groups backlog
add_groups-backlog topic [] t h = ap pos (omega arith)
add_groups-backlog topic ((name, ts) ∷ gs) t h =
    ap (add_groups topic gs) (add_topics-of_topic topic ts t (omega (arith, h)))
    ∙ add_groups-backlog topic gs (t + of_topic topic ts) (omega (arith, h))
    ∙ ap pos (omega arith)

-- The lag that is read for a consumer group with a name is the number of votes that wait in the partitions of
-- the topic, if that is below 2^63, a partition whose lag could not be read counting as one without votes.
-- So the snapshotter takes the votes to be counted exactly when none waits in a partition whose lag was
-- read, and when the answer fails it does not go on.
pub lag-backlog :
    (group topic : Text) (groups : Groups)
    → is_nil group ≡ false
    → backlog topic groups < 2 ^ 63
    → (consumer_lag (some group) (ok groups) topic ≡ ok (pos (backlog topic groups)))
      × (drained (some (consumer_lag (some group) (ok groups) topic))
          ≡ ok (backlog topic groups == 0))
      × ((e : Failure) → drained (some (consumer_lag (some group) (err e) topic)) ≡ err e)
unfolding consumer_lag drained
lag-backlog group topic groups named small =
    let sum = add_groups-backlog topic groups 0 (omega (arith, small)) in
    let total : add_groups topic groups (pos 0) ≡ pos (backlog topic groups) =
      sum ∙ ap pos (omega arith) in
    (rw (named, total) refl, rw (named, total) refl, λ e. rw named refl)
