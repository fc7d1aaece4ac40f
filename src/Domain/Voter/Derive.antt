-- ===== src/Domain/Voter/Derive.antt =====
-- What deriving a voter id guarantees.
use televote.Prelude.{ℕ, zero, suc, ◌≡◌, ◌≤◌, ◌<◌, refl, false, List, [], ◌∷◌, arith, All, length}
use televote.Prelude.Text.{Text, byte_len, trim_space, to_lower}
use televote.Errors.{ok}
use televote.Domain.Voter.{
  VoterId, take, derive_voter_id, text_in, constant_client_ids, min_salt_len, max_client_id_len,
  voter_id_len,
}
use televote.Domain.Voter.Hex.{IsVoterId}

-- HMAC-SHA256 returns a sum of 32 bytes.
pub record IsMac (hmac : List ℕ → Text → List ℕ) : Type 0 where
  pub size : (key : List ℕ) (message : Text) → length (hmac key message) ≡ 32
  pub bytes : (key : List ℕ) (message : Text) → All (λ b. b < 256) (hmac key message)

length-take : (n : ℕ) (xs : List ℕ) → n ≤ length xs → length (take n xs) ≡ n
unfolding take
length-take zero xs h = refl
length-take (suc n) [] h = absurd (omega arith)
length-take (suc n) (x ∷ xs) h = omega (arith, length-take n xs)

take-All : (P : ℕ → Type 0) (n : ℕ) (xs : List ℕ) → All P xs → All P (take n xs)
unfolding take
take-All P zero xs h = tt
take-All P (suc n) [] h = tt
take-All P (suc n) (x ∷ xs) h = (h.0, take-All P n xs h.1)

module _ (hmac : List ℕ → Text → List ℕ) (mac : IsMac hmac) where
  -- A derived id is 16 bytes, and it was derived from a salt of 16 bytes or more and a client id of at
  -- most 256 bytes that is no constant such as "null", in any case and with any space around it.
  pub derive_voter_id-ok :
      (salt : List ℕ) (client_id : Text) {v : VoterId}
      → derive_voter_id hmac salt client_id ≡ ok v
      → IsVoterId v
        × (min_salt_len ≤ length salt)
        × (byte_len client_id ≤ max_client_id_len)
        × (text_in (to_lower (trim_space client_id)) constant_client_ids ≡ false)
  unfolding derive_voter_id
  derive_voter_id-ok salt client_id {v} h =
      let e : v ≡ take voter_id_len (hmac salt client_id) = ground arith in
      (
        rw e (record {
          size = length-take 16 (hmac salt client_id) (omega (arith, mac.size salt client_id));
          bytes = take-All (λ b. b < 256) 16 (hmac salt client_id) (mac.bytes salt client_id);
        }),
        ground arith,
        ground arith,
        ground arith,
      )
