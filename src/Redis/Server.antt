-- ===== src/Redis/Server.antt =====
-- The Redis server, which this repository does not hold: the commands that vote.lua and tally.go send,
-- and what their documentation says of them. Keys, fields and arguments are texts; a command is run at
-- an instant, in whole seconds, and readings may be taken at any instant.
pub mod Memory
use televote.Prelude.{
  ℕ, ◌+◌, ◌^◌, ◌≤◌, ◌<◌, ◌≡◌, ◌≢◌, Bool, true, false, List, [], ◌∷◌, ltb, ◌==◌, if◌then◌else◌,
  Option, none, some,
}
use televote.Prelude.Text.{Text, text_eq}
use televote.Prelude.Decimal.{format_uint}

pub record Server : Type 1 where
  pub Store : Type 0
  -- Whether a string key is set and has not run out.
  pub exists : Text → ℕ → Store → Bool
  -- The number that a field of a hash holds; 0 if the hash or the field is missing.
  pub field : Text → Text → ℕ → Store → ℕ
  -- SET key 1 NX EX ttl: whether the key was set.
  pub set_nx_ex : Text → Text → ℕ → Store → Bool × Store
  -- HINCRBY key field 1.
  pub hincrby : Text → Text → ℕ → Store → Store
  -- EXPIRE key ttl.
  pub expire : Text → Text → ℕ → Store → Store
  -- HGETALL key.
  pub hgetall : Text → ℕ → Store → List (Text × Text)

-- The value of a name in the map that HGETALL returns.
unfoldable pub find_text : Text → List (Text × Text) → Option Text
find_text f [] = none
find_text f ((g, v) ∷ m) = if text_eq g f then some v else find_text f m

abbrev pub UniqueNames : List (Text × Text) → Type 0
UniqueNames [] = Unit
UniqueNames ((f, v) ∷ m) = (find_text f m ≡ none) × UniqueNames m

-- A command on one key leaves the readings of another key alone.
abbrev pub SameKey : (r : Server) → Text → r.Store → r.Store → Type 0
SameKey r j s t =
    ((n : ℕ) → r.exists j n t ≡ r.exists j n s)
    × ((f : Text) (n : ℕ) → r.field j f n t ≡ r.field j f n s)

pub record IsRedis (r : Server) : Type 0 where
  -- NX: a key that is there is not set again.
  pub set_taken :
      (k ttl : Text) (now : ℕ) (s : r.Store)
      → r.exists k now s ≡ true
      → r.set_nx_ex k ttl now s ≡ (false, s)
  pub set_free :
      (k ttl : Text) (now : ℕ) (s : r.Store)
      → r.exists k now s ≡ false
      → (r.set_nx_ex k ttl now s).0 ≡ true
  -- EX: it is there until its time to live has passed.
  pub set_lives :
      (k : Text) (ttl now t : ℕ) (s : r.Store)
      → r.exists k now s ≡ false
      → ttl < 2 ^ 63
      → now ≤ t
      → r.exists k t (r.set_nx_ex k (format_uint ttl) now s).1 ≡ ltb t (now + ttl)
  pub set_other :
      (k ttl : Text) (now : ℕ) (s : r.Store) (j : Text)
      → j ≢ k
      → SameKey r j s (r.set_nx_ex k ttl now s).1
  pub hincrby_self :
      (k f : Text) (now : ℕ) (s : r.Store)
      → r.field k f now (r.hincrby k f now s) ≡ r.field k f now s + 1
  pub hincrby_field :
      (k f g : Text) (now : ℕ) (s : r.Store)
      → g ≢ f
      → r.field k g now (r.hincrby k f now s) ≡ r.field k g now s
  pub hincrby_other :
      (k f : Text) (now : ℕ) (s : r.Store) (j : Text) → j ≢ k → SameKey r j s (r.hincrby k f now s)
  -- The hash is there until the new time to live has passed, and gone after it.
  pub expire_self :
      (k f : Text) (ttl now t : ℕ) (s : r.Store)
      → ttl < 2 ^ 63
      → now ≤ t
      → r.field k f t (r.expire k (format_uint ttl) now s)
        ≡ (if ltb t (now + ttl) then r.field k f now s else 0)
  pub expire_other :
      (k ttl : Text) (now : ℕ) (s : r.Store) (j : Text)
      → j ≢ k
      → SameKey r j s (r.expire k ttl now s)
  -- A field that counts something is listed in decimal, and only once.
  pub hgetall_reads :
      (k f : Text) (t : ℕ) (s : r.Store)
      → find_text f (r.hgetall k t s)
        ≡ (if r.field k f t s == 0 then none else some (format_uint (r.field k f t s)))
  pub hgetall_unique : (k : Text) (t : ℕ) (s : r.Store) → UniqueNames (r.hgetall k t s)
