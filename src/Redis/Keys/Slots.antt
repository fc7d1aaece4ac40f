-- ===== src/Redis/Keys/Slots.antt =====
-- The keys of one vote lie in one cluster slot, and keys of different votes are different.
use televote.Prelude.{
  ℕ, suc, zero, ◌+◌, ◌/◌, ◌%◌, ◌≡◌, ◌≢◌, refl, [], ◌∷◌, ◌++◌, ◌==◌, if◌then◌else◌, length, All,
  All-append, arith, ap, sym, ◌∙◌, ltb, Bool-cases, inl, inr,
}
use mathlib.Core.List.{append_cancel_left, head-eq_of_cons-eq, tail-eq_of_cons-eq}
use televote.Prelude.Text.{Text, codes}
use televote.Prelude.Decimal.{format_uint, format_uint-injective, digits}
use televote.Domain.Voter.{VoterId}
use televote.Domain.Voter.Hex.{IsVoterId, hex-injective}
use televote.Redis.Keys.{hash_tag, dedup_key, counter_key}

-- The text of a UUID is its 36 characters, hexadecimal digits and dashes.
pub record IsUuidText (uuid_text : ℕ → Text) : Type 0 where
  pub size : (id : ℕ) → length (uuid_text id) ≡ 36
  pub plain : (id : ℕ) → All (λ c. c ≢ b'}') (uuid_text id)
  pub injective : (i j : ℕ) → uuid_text i ≡ uuid_text j → i ≡ j

-- Redis Cluster's rule: what stands between the first `{` and the next `}` picks the slot of a key,
-- if it is not empty.
unfoldable pub upto_brace : Text → Text
upto_brace [] = []
upto_brace (c ∷ s) = let rest = c ∷ upto_brace s in if c == b'}' then [] else rest

unfoldable pub slot_tag : Text → Text
unfolding upto_brace
slot_tag [] = []
slot_tag (c ∷ s) = if c == b'{' then upto_brace s else slot_tag s

upto_brace-append : (xs ys : Text) → All (λ c. c ≢ b'}') xs → upto_brace (xs ++ b'}' ∷ ys) ≡ xs
unfolding upto_brace
upto_brace-append [] ys h = refl
upto_brace-append (x ∷ xs) ys h = ground (arith, upto_brace-append xs ys h.1)

digits-plain : (f n : ℕ) → All (λ c. c ≢ b'}') (digits f n)
unfolding digits
digits-plain zero n = tt
digits-plain (suc f) n = elim (Bool-cases (ltb n 10)) [
  | inl e ↦ rw e (ground arith, tt)
  | inr e ↦ rw e (
      All-append (λ c. c ≢ b'}') (digits f (n / 10)) ((48 + n % 10) ∷ []) (digits-plain f (n / 10))
        (omega arith, tt))
]

split_append :
    (xs xs' ys ys' : Text)
    → length xs ≡ length xs'
    → xs ++ ys ≡ xs' ++ ys'
    → (xs ≡ xs') × (ys ≡ ys')
split_append [] [] ys ys' n e = (refl, e)
split_append [] (x ∷ xs') ys ys' n e = absurd (omega arith)
split_append (x ∷ xs) [] ys ys' n e = absurd (omega arith)
split_append (x ∷ xs) (y ∷ xs') ys ys' n e =
    let (p, q) = split_append xs xs' ys ys' (omega arith) (tail-eq_of_cons-eq e) in
    (cc (head-eq_of_cons-eq e, p), q)

module _ (uuid_text : ℕ → Text) (uuids : IsUuidText uuid_text) where
  hash_tag-plain : (id shard : ℕ) → All (λ c. c ≢ b'}') (hash_tag uuid_text id shard)
  unfolding hash_tag format_uint
  hash_tag-plain id shard = (
    omega arith,
    (
      omega arith,
      All-append _ (uuid_text id) _ (uuids.plain id)
          (omega arith, (omega arith, digits-plain (suc shard) shard)),
    ),
  )

  -- The dedup key of any voter and the counter of its shard have the same hash tag, so that the vote
  -- script may touch both: a cluster keeps them in one slot.
  same_slot :
      (id shard : ℕ) (v : VoterId)
      → (slot_tag (dedup_key uuid_text id shard v) ≡ hash_tag uuid_text id shard)
        × (slot_tag (counter_key uuid_text id shard) ≡ hash_tag uuid_text id shard)
  unfolding slot_tag dedup_key counter_key
  same_slot id shard v = (
    upto_brace-append (hash_tag uuid_text id shard) _ (hash_tag-plain id shard),
    upto_brace-append (hash_tag uuid_text id shard) _ (hash_tag-plain id shard),
  )

  hash_tag-injective :
      (i j shard shard' : ℕ)
      → hash_tag uuid_text i shard ≡ hash_tag uuid_text j shard'
      → (i ≡ j) × (shard ≡ shard')
  unfolding hash_tag
  hash_tag-injective i j shard shard' e =
      let (p, q) =
        split_append (uuid_text i) (uuid_text j) _ _ (omega (arith, uuids.size i, uuids.size j))
          (append_cancel_left (codes "p:") _ _ e) in
      (
        uuids.injective i j p,
        format_uint-injective shard shard' (append_cancel_left (codes ":s") _ _ q),
      )

  same_voter :
      (id shard : ℕ) (v w : VoterId)
      → IsVoterId v
      → IsVoterId w
      → dedup_key uuid_text id shard v ≡ dedup_key uuid_text id shard w
      → v ≡ w
  unfolding dedup_key
  same_voter id shard v w hv hw e = hex-injective v w hv hw (
      append_cancel_left (codes "}:") _ _ (
        append_cancel_left (hash_tag uuid_text id shard) _ _
          (append_cancel_left (codes "v:{") _ _ e)))

  keys_apart :
      (i j shard shard' : ℕ) (v : VoterId)
      → dedup_key uuid_text i shard v ≢ counter_key uuid_text j shard'
  unfolding dedup_key counter_key
  keys_apart i j shard shard' v e =
      let h : ◌≡◌ {A = ℕ} b'v' b'c' = head-eq_of_cons-eq e in absurd (omega arith)

  -- Different votes use different keys: equal counter keys are of one poll and one shard, equal dedup
  -- keys are of one poll, shard and voter, and no dedup key is a counter key.
  pub keys-injective :
      (i j shard shard' : ℕ) (v w : VoterId)
      → IsVoterId v
      → IsVoterId w
      → (counter_key uuid_text i shard ≡ counter_key uuid_text j shard'
          → (i ≡ j) × (shard ≡ shard'))
        × (dedup_key uuid_text i shard v ≡ dedup_key uuid_text j shard' w
            → (i ≡ j) × (shard ≡ shard') × (v ≡ w))
        × (dedup_key uuid_text i shard v ≢ counter_key uuid_text j shard')
  keys-injective i j shard shard' v w hv hw = (
    λ e.
        hash_tag-injective i j shard shard'
          (sym (same_slot i shard v).1 ∙ ap slot_tag e ∙ (same_slot j shard' w).1),
    λ e.
        let (p, q) =
          hash_tag-injective i j shard shard'
            (sym (same_slot i shard v).0 ∙ ap slot_tag e ∙ (same_slot j shard' w).0) in
        let same : dedup_key uuid_text i shard w ≡ dedup_key uuid_text j shard' w = cc in
        (p, q, same_voter i shard v w hv hw (e ∙ sym same)),
    keys_apart i j shard shard' v,
  )
