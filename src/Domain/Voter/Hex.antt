-- ===== src/Domain/Voter/Hex.antt =====
-- Printing and reading a voter id.
use televote.Prelude.{
  ℕ, ◌*◌, ◌/◌, ◌%◌, ◌≡◌, ◌<◌, refl, [], ◌∷◌, arith, All, length, some, ◌∙◌, sym, ap,
}
use televote.Prelude.Text.{byte_len}
use televote.Errors.{ok}
use televote.Domain.Voter.{VoterId, hex_digit, hex, hex_value, decode, parse_voter_id, voter_id_len}

-- A voter id as the program makes it: 16 bytes.
pub record IsVoterId (v : VoterId) : Type 0 where
  pub size : length v ≡ voter_id_len
  pub bytes : All (λ b. b < 256) v

hex_value-hex_digit : (n : ℕ) → n < 16 → hex_value (hex_digit n) ≡ some n
hex_value-hex_digit n h = ground arith

decode-hex : (v : VoterId) → All (λ b. b < 256) v → decode (hex v) ≡ some v
unfolding decode hex
decode-hex [] h = refl
decode-hex (b ∷ bs) h =
    rw
      (
        hex_value-hex_digit (b / 16) (omega arith),
        hex_value-hex_digit (b % 16) (omega arith),
        decode-hex bs h.1,
      )
      (ap (λ x. some (x ∷ bs)) (omega arith))

byte_len-hex : (v : VoterId) → All (λ b. b < 256) v → byte_len (hex v) ≡ 2 * length v
unfolding byte_len hex
byte_len-hex [] h = refl
byte_len-hex (b ∷ bs) h = ground (arith, byte_len-hex bs h.1)

-- What `Hex` prints, `ParseVoterID` reads back.
pub parse_voter_id-hex : (v : VoterId) → IsVoterId v → parse_voter_id (hex v) ≡ ok v
parse_voter_id-hex v h =
    unfold parse_voter_id in rw (byte_len-hex v h.bytes, h.size, decode-hex v h.bytes) refl

ok-inj : {v w : VoterId} → ok v ≡ ok w → v ≡ w
ok-inj e = cc

pub hex-injective : (v w : VoterId) → IsVoterId v → IsVoterId w → hex v ≡ hex w → v ≡ w
hex-injective v w hv hw e =
    ok-inj (sym (parse_voter_id-hex v hv) ∙ ap parse_voter_id e ∙ parse_voter_id-hex w hw)
