-- ===== src/Domain/Voter.antt =====
-- internal/domain/voter.go. A VoterID is a list of 16 bytes; HMAC-SHA256 is a parameter, a function of
-- the key and the message.
pub mod Hex
pub mod Derive
use televote.Prelude.{
  ℕ, ◌+◌, ◌-◌, ◌*◌, ◌/◌, ◌%◌, zero, suc, ◌≡◌, refl, Bool, true, false, ◌&&◌, ◌||◌, not, List, [],
  ◌∷◌, ltb, leb, ◌==◌, if◌then◌else◌, length, Option, none, some,
}
use televote.Prelude.Text.{Text, codes, text_eq, byte_len, trim_space, to_lower}
use televote.Errors.{Result, ok, err, bad_salt, bad_client_id, reject_if, ◌>>=◌, ◌>>◌}

abbrev pub VoterId : Type 0
VoterId = List ℕ

-- The table "0123456789abcdef" of `encoding/hex`.
abbrev pub hex_digit : ℕ → ℕ
hex_digit n = if ltb n 10 then 48 + n else 87 + n

-- `VoterID.Hex`.
unfoldable pub hex : VoterId → Text
hex [] = []
hex (b ∷ bs) = hex_digit (b / 16) ∷ hex_digit (b % 16) ∷ hex bs

-- The value of a hexadecimal digit, in either case.
abbrev pub hex_value : ℕ → Option ℕ
hex_value c =
    if leb b'0' c && leb c b'9'
    then some (c - 48)
    else if leb b'a' c && leb c b'f'
    then some (c - 87)
    else if leb b'A' c && leb c b'F'
    then some (c - 55)
    else none

abbrev pub join : Option ℕ → Option ℕ → Option (List ℕ) → Option (List ℕ)
join (some h) (some l) (some bs) = some ((h * 16 + l) ∷ bs)
join _ _ _ = none

-- `hex.Decode`.
unfoldable pub decode : Text → Option (List ℕ)
decode [] = some []
decode (c ∷ []) = none
decode (c ∷ d ∷ s) = join (hex_value c) (hex_value d) (decode s)

abbrev pub voter_id_len : ℕ
voter_id_len = 16

unfoldable pub parse_voter_id : Text → Result VoterId
parse_voter_id s =
    if not (byte_len s == 2 * voter_id_len)
    then err []
    else elim (decode s) [ none ↦ err [] | some v ↦ ok v ]

abbrev pub min_salt_len : ℕ
min_salt_len = 16

abbrev pub max_client_id_len : ℕ
max_client_id_len = 256

abbrev pub constant_client_ids : List Text
constant_client_ids =
    codes ""
    ∷ codes "undefined"
    ∷ codes "null"
    ∷ codes "nan"
    ∷ codes "nil"
    ∷ codes "none"
    ∷ codes "false"
    ∷ codes "true"
    ∷ codes "0"
    ∷ codes "1"
    ∷ codes "-"
    ∷ codes "[object object]"
    ∷ codes "00000000-0000-0000-0000-000000000000"
    ∷ []

unfoldable pub text_in : Text → List Text → Bool
text_in s [] = false
text_in s (t ∷ ts) = text_eq t s || text_in s ts

unfoldable pub take : ℕ → List ℕ → List ℕ
take zero xs = []
take (suc n) [] = []
take (suc n) (x ∷ xs) = x ∷ take n xs

module _ (hmac : List ℕ → Text → List ℕ) where
  unfoldable pub derive_voter_id : List ℕ → Text → Result VoterId
  derive_voter_id salt client_id = do
    reject_if (ltb (length salt) min_salt_len) (bad_salt ∷ [])
    reject_if (ltb max_client_id_len (byte_len client_id)) (bad_client_id ∷ [])
    reject_if (text_in (to_lower (trim_space client_id)) constant_client_ids) (bad_client_id ∷ [])
    ok (take voter_id_len (hmac salt client_id))
