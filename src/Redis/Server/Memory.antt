-- ===== src/Redis/Server/Memory.antt =====
-- A store that meets the laws, to show that they can be met: what each key reads as, over time.
use televote.Prelude.{
  ℕ, ◌+◌, ◌^◌, ◌<◌, ◌≡◌, refl, Bool, true, false, List, [], ◌∷◌, ltb, ◌==◌, if◌then◌else◌, none,
  some, arith,
}
use televote.Prelude.Text.{Text, text_eq, text_eq_iff}
use televote.Prelude.Decimal.{format_uint, parse_uint, parse_uint-format_uint}
use televote.Redis.Server.{Server, IsRedis, find_text, UniqueNames}

pub record Memory : Type 0 where
  pub live : Text → ℕ → Bool
  pub hash : Text → ℕ → List (Text × ℕ)

count : Text → List (Text × ℕ) → ℕ
count f [] = 0
count f ((g, n) ∷ m) = if text_eq g f then n else count f m

without : Text → List (Text × Text) → List (Text × Text)
without f [] = []
without f ((g, v) ∷ m) = let rest = without f m in if text_eq g f then rest else (g, v) ∷ rest

entries : List (Text × ℕ) → List (Text × Text)
entries [] = []
entries ((f, n) ∷ m) =
    let rest = without f (entries m) in if n == 0 then rest else (f, format_uint n) ∷ rest

abbrev seconds : Text → ℕ
seconds t = elim (parse_uint (2 ^ 63) t) [ none ↦ 0 | some n ↦ n ]

mem_set : Text → Text → ℕ → Memory → Bool × Memory
mem_set k ttl now s = if s.live k now then (false, s) else (
  true,
  record s { live = λ j t. if text_eq j k then ltb t (now + seconds ttl) else s.live j t },
)

mem_hincrby : Text → Text → ℕ → Memory → Memory
mem_hincrby k f now s = record s {
  hash = λ j t. if text_eq j k then (f, count f (s.hash j t) + 1) ∷ s.hash j t else s.hash j t;
}

mem_expire : Text → Text → ℕ → Memory → Memory
mem_expire k ttl now s = record s {
  hash = λ j t.
      if text_eq j k then (if ltb t (now + seconds ttl) then s.hash j now else []) else s.hash j t;
}

unfoldable pub memory : Server
unfolding mem_set mem_hincrby mem_expire count without entries
memory = record {
  Store = Memory;
  exists = λ k t s. s.live k t;
  field = λ k f t s. count f (s.hash k t);
  set_nx_ex = mem_set;
  hincrby = mem_hincrby;
  expire = mem_expire;
  hgetall = λ k t s. entries (s.hash k t);
}

find-without :
    (f g : Text) (m : List (Text × Text))
    → find_text g (without f m) ≡ (if text_eq f g then none else find_text g m)
unfolding find_text without
find-without f g [] = ground arith
find-without f g ((h, v) ∷ m) =
    ground (arith, find-without f g m, text_eq_iff h f, text_eq_iff h g, text_eq_iff f g)

without-UniqueNames :
    (f : Text) (m : List (Text × Text)) → UniqueNames m → UniqueNames (without f m)
unfolding without
without-UniqueNames f [] u = tt
without-UniqueNames f ((g, v) ∷ m) u =
    ground (arith, without-UniqueNames f m u.1, find-without f g m)

entries-UniqueNames : (m : List (Text × ℕ)) → UniqueNames (entries m)
unfolding entries
entries-UniqueNames [] = tt
entries-UniqueNames ((f, n) ∷ m) = ground (
  arith,
  without-UniqueNames f (entries m) (entries-UniqueNames m),
  find-without f f (entries m),
  text_eq_iff f f,
)

find-entries :
    (f : Text) (m : List (Text × ℕ))
    → find_text f (entries m) ≡ (if count f m == 0 then none else some (format_uint (count f m)))
unfolding find_text entries count
find-entries f [] = refl
find-entries f ((g, n) ∷ m) =
    ground (arith, find-entries f m, find-without g f (entries m), text_eq_iff g f)

-- Times to live come in as decimal texts of 63 bits.
seconds-format_uint : (n : ℕ) → n < 2 ^ 63 → seconds (format_uint n) ≡ n
seconds-format_uint n h = rw (parse_uint-format_uint (2 ^ 63) n h, seconds)

pub memory-IsRedis : IsRedis memory
unfolding memory
memory-IsRedis = record {
  set_taken = λ k ttl now s h. ground arith;
  set_free = λ k ttl now s h. ground arith;
  set_lives = λ k ttl now t s h lt le. ground (arith, text_eq_iff k k, seconds-format_uint ttl);
  set_other = λ k ttl now s j ne. (λ n. ground (arith, text_eq_iff j k), λ f n. ground arith);
  hincrby_self = λ k f now s. ground (arith, text_eq_iff k k, text_eq_iff f f);
  hincrby_field = λ k f g now s ne. ground (arith, text_eq_iff k k, text_eq_iff f g);
  hincrby_other = λ k f now s j ne. (λ n. refl, λ f n. ground (arith, text_eq_iff j k));
  expire_self = λ k f ttl now t s lt le. ground (arith, text_eq_iff k k, seconds-format_uint ttl);
  expire_other = λ k ttl now s j ne. (λ n. refl, λ f n. ground (arith, text_eq_iff j k));
  hgetall_reads = λ k f t s. find-entries f (s.hash k t);
  hgetall_unique = λ k t s. entries-UniqueNames (s.hash k t);
}

-- The server with nothing in it.
unfoldable pub empty_store : memory.Store
unfolding memory
empty_store = record { live = λ k t. false; hash = λ k t. [] }

pub empty_store-exists : (k : Text) (t : ℕ) → memory.exists k t empty_store ≡ false
unfolding memory empty_store
empty_store-exists k t = refl

pub empty_store-field : (k f : Text) (t : ℕ) → memory.field k f t empty_store ≡ 0
unfolding memory empty_store count
empty_store-field k f t = refl
