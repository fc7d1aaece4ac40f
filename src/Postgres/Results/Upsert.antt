-- ===== src/Postgres/Results/Upsert.antt =====
-- What writing a snapshot yields.
use televote.Prelude.{
  ℕ, ◌≡◌, ◌≢◌, refl, Bool, true, false, ◌||◌, [], ◌∷◌, Option, none, some, arith, ◌==◌, ==_iff,
  if◌then◌else◌, Bool-cases, inl, inr, sym, ap, subst, ◌∙◌,
}
use televote.Prelude.Int.{ℤ, pos, max_ℤ, ◌≤ℤ◌}
use televote.Errors.{ok, err, Failure}
use televote.Domain.Aggregate.{
  Counters, get, has_key, Aggregate, UniqueKeys, get-put, put-UniqueKeys, get_of_missing,
}
use televote.Domain.Aggregate.Merge.{IsTally}
use televote.Postgres.Results.{
  Tables, insert_index, sorted_indexes, check_counts, vote_arrays, upsert_row, upsert_rows,
  upsert_stats, write, upsert, stats_of,
}

has_key-insert_index :
    (e : ℕ × ℤ) (m : Counters) (j : ℕ) → has_key (insert_index e m) j ≡ (e.0 == j || has_key m j)
unfolding has_key insert_index
has_key-insert_index e [] j = refl
has_key-insert_index e (f ∷ m) j = ground (arith, has_key-insert_index e m j)

get-insert_index :
    (e : ℕ × ℤ) (m : Counters) (j : ℕ)
    → has_key m e.0 ≡ false
    → get (insert_index e m) j ≡ (if e.0 == j then e.1 else get m j)
unfolding get has_key insert_index
get-insert_index e [] j h = refl
get-insert_index e (f ∷ m) j h = ground (arith, get-insert_index e m j)

insert_index-UniqueKeys :
    (e : ℕ × ℤ) (m : Counters)
    → has_key m e.0 ≡ false
    → UniqueKeys m
    → UniqueKeys (insert_index e m)
unfolding has_key insert_index
insert_index-UniqueKeys e [] h u = (refl, tt)
insert_index-UniqueKeys e (f ∷ m) h u =
    ground (arith, insert_index-UniqueKeys e m, has_key-insert_index e m f.0)

-- A sorted map reads as the map.
pub record SameMap (m n : Counters) : Type 0 where
  pub keys : (j : ℕ) → has_key m j ≡ has_key n j
  pub counts : (j : ℕ) → get m j ≡ get n j
  pub unique : UniqueKeys m

pub sorted_indexes-SameMap : (m : Counters) → UniqueKeys m → SameMap (sorted_indexes m) m
unfolding sorted_indexes get has_key
sorted_indexes-SameMap [] u = record { keys = λ j. refl; counts = λ j. refl; unique = tt }
sorted_indexes-SameMap ((i, v) ∷ m) u =
    let ih = sorted_indexes-SameMap m u.1 in
    let new = ih.keys i ∙ u.0 in
    record {
      keys =
          λ j. has_key-insert_index (i, v) (sorted_indexes m) j ∙ ap (λ b. i == j || b) (ih.keys j);
      counts = λ j.
          get-insert_index (i, v) (sorted_indexes m) j new
          ∙ ap (λ x. if i == j then v else x) (ih.counts j);
      unique = insert_index-UniqueKeys (i, v) (sorted_indexes m) new ih.unique;
    }

-- No entry is below zero.
abbrev pub NonNegative : Counters → Type 0
NonNegative m = (k : ℕ) → pos 0 ≤ℤ get m k

pub tail_NonNegative :
    (i : ℕ) (v : ℤ) (m : Counters)
    → UniqueKeys ((i, v) ∷ m)
    → NonNegative ((i, v) ∷ m)
    → (pos 0 ≤ℤ v) × NonNegative m
unfolding get
tail_NonNegative i v m u h = (
  ground (arith, h i),
  λ k. elim (Bool-cases (i == k)) [
    | inl e ↦
        rw (get_of_missing m k (subst (λ x. has_key m x ≡ false) ((==_iff i k).0 e) u.0))
          (omega arith)
    | inr e ↦ ground (arith, h k)
  ],
)

pub check_counts-ok : (m : Counters) → UniqueKeys m → NonNegative m → check_counts m ≡ ok m
unfolding check_counts
check_counts-ok [] u h = refl
check_counts-ok ((i, v) ∷ m) u h =
    let (low, rest) = tail_NonNegative i v m u h in
    let ih = check_counts-ok m u.1 rest in ground arith

get-upsert_row :
    (m : Counters) (i : ℕ) (v : ℤ) (k : ℕ)
    → pos 0 ≤ℤ v
    → get (upsert_row m i v) k ≡ (if i == k then max_ℤ (get m i) v else get m k)
unfolding upsert_row max_ℤ
get-upsert_row m i v k low = elim (Bool-cases (has_key m i)) [
  | inl e ↦ rw e (get-put m i k _)
  | inr e ↦ rw (e, get_of_missing m i e) (get-put m i k v ∙ ground arith)
]

max-zero : (x : ℤ) → pos 0 ≤ℤ x → max_ℤ x (pos 0) ≡ x
unfolding max_ℤ
max-zero x h = ground arith

max-low : (x y : ℤ) → pos 0 ≤ℤ x → pos 0 ≤ℤ max_ℤ x y
unfolding max_ℤ
max-low x y h = ground arith

assigned-low : (b : Bool) (x y : ℤ) → pos 0 ≤ℤ x → pos 0 ≤ℤ y → pos 0 ≤ℤ (if b then x else y)
assigned-low true x y h k = h
assigned-low false x y h k = k

raise-head :
    (m : Counters) (i : ℕ) (v : ℤ) (rows : Counters) (k : ℕ)
    → pos 0 ≤ℤ get m k
    → pos 0 ≤ℤ v
    → has_key rows i ≡ false
    → max_ℤ (if i == k then max_ℤ (get m i) v else get m k) (get rows k)
      ≡ max_ℤ (get m k) (get ((i, v) ∷ rows) k)
unfolding get
raise-head m i v rows k low here missing = elim (Bool-cases (i == k)) [
  | inl e ↦
      rw
        (
          e,
          get_of_missing rows k (subst (λ x. has_key rows x ≡ false) ((==_iff i k).0 e) missing),
          ap (λ x. get m x) ((==_iff i k).0 e),
        )
        (max-zero _ (max-low (get m k) v low))
  | inr e ↦ rw e refl
]

-- Writing rows takes the larger count of each option.
pub get-upsert_rows :
    (m rows : Counters) (k : ℕ)
    → NonNegative m
    → UniqueKeys rows
    → NonNegative rows
    → get (upsert_rows m rows) k ≡ max_ℤ (get m k) (get rows k)
unfolding upsert_rows
get-upsert_rows m [] k low u h = unfold get in sym (max-zero (get m k) (low k))
get-upsert_rows m ((i, v) ∷ rows) k low u h =
    let (here, rest) = tail_NonNegative i v rows u h in
    let after : (j : ℕ) → pos 0 ≤ℤ get (upsert_row m i v) j = λ j.
      rw (get-upsert_row m i v j here)
        (assigned-low (i == j) _ _ (max-low (get m i) v (low i)) (low j)) in
    get-upsert_rows (upsert_row m i v) rows k after u.1 rest
    ∙ ap (λ x. max_ℤ x (get rows k)) (get-upsert_row m i v k here)
    ∙ raise-head m i v rows k (low k) here u.0

pub upsert_rows-UniqueKeys : (m rows : Counters) → UniqueKeys m → UniqueKeys (upsert_rows m rows)
unfolding upsert_rows upsert_row
upsert_rows-UniqueKeys m [] u = u
upsert_rows-UniqueKeys m ((i, v) ∷ rows) u =
    upsert_rows-UniqueKeys (upsert_row m i v) rows (unfold upsert_row in put-UniqueKeys m i _ u)

vote_arrays-ok : (a : Aggregate) → IsTally a → vote_arrays a ≡ ok (sorted_indexes a.votes)
unfolding vote_arrays
vote_arrays-ok a h =
    let same = sorted_indexes-SameMap a.votes h.unique in
    let fine =
      check_counts-ok (sorted_indexes a.votes) same.unique (λ k. rw (same.counts k) (h.counts k)) in
    let total = h.total in ground arith

stats-max : (o : Option ℤ) (n : ℤ) → pos 0 ≤ℤ n → upsert_stats o n ≡ max_ℤ (stats_of o) n
unfolding upsert_stats max_ℤ
stats-max none n h = ground arith
stats-max (some old) n h = refl

-- What a write makes of the tables.
pub record Raised (poll : ℕ) (a : Aggregate) (t t' : Tables) : Type 0 where
  pub votes : (k : ℕ) → get (t'.votes poll) k ≡ max_ℤ (get (t.votes poll) k) (get a.votes k)
  pub ballots : stats_of (t'.ballots poll) ≡ max_ℤ (stats_of (t.ballots poll)) a.ballots
  pub others : (j : ℕ) → j ≢ poll → (t'.votes j ≡ t.votes j) × (t'.ballots j ≡ t.ballots j)

write-Raised :
    (exists : ℕ → Bool) (poll : ℕ) (a : Aggregate) (t : Tables)
    → IsTally a
    → NonNegative (t.votes poll)
    → exists poll ≡ true
    → ((write none exists poll a.ballots (sorted_indexes a.votes) t).0 ≡ ok tt)
      × Raised poll a t (write none exists poll a.ballots (sorted_indexes a.votes) t).1
unfolding write
write-Raised exists poll a t h low there =
    let same = sorted_indexes-SameMap a.votes h.unique in
    rw there (
      refl,
      record {
        votes = λ k. rw ((==_iff poll poll).1 refl) (
            get-upsert_rows (t.votes poll) (sorted_indexes a.votes) k low same.unique
              (λ j. rw (same.counts j) (h.counts j))
            ∙ ap (max_ℤ (get (t.votes poll) k)) (same.counts k));
        ballots = rw ((==_iff poll poll).1 refl) (stats-max (t.ballots poll) a.ballots h.total);
        others = λ j other. ground arith;
      },
    )

failed-write :
    (outage : Option Failure) (exists : ℕ → Bool) (poll : ℕ) (a : Aggregate) (t : Tables)
    {e : Failure}
    → (upsert outage exists poll a t).0 ≡ err e
    → (upsert outage exists poll a t).1 ≡ t
unfolding upsert write
failed-write none exists poll a t h = ground arith
failed-write (some e) exists poll a t h = ground arith

-- Writing the snapshot of a poll that exists raises each of its counts and its ballots to the larger of what
-- is stored and what is written, so that no stored number falls, and leaves the other polls' rows. A write
-- that fails, because a number is below zero, the poll does not exist or the database fails, changes nothing.
pub upsert-raises :
    (outage : Option Failure) (exists : ℕ → Bool) (poll : ℕ) (a : Aggregate) (t : Tables)
    → NonNegative (t.votes poll)
    → (IsTally a
        → exists poll ≡ true
        → ((upsert none exists poll a t).0 ≡ ok tt)
          × Raised poll a t (upsert none exists poll a t).1)
      × ((e : Failure)
          → (upsert outage exists poll a t).0 ≡ err e
          → (upsert outage exists poll a t).1 ≡ t)
unfolding upsert
upsert-raises outage exists poll a t low = (
  λ h there. rw (vote_arrays-ok a h, upsert) (write-Raised exists poll a t h low there),
  λ e h. failed-write outage exists poll a t h,
)
