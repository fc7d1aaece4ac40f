-- ===== src/ClientIp/Honest.antt =====
-- A client cannot choose the address that it is known by.
use mathlib.Core.List.{reverse, reverse-append}
use televote.Prelude.{
  ℕ, ◌≡◌, refl, true, not, List, [], ◌∷◌, ◌++◌, Option, none, some, ◌==◌, ==_iff, if◌then◌else◌,
  ◌⊎◌, inl, inr, arith, Bool-cases, Option-cases, ap, ◌∙◌,
}
use televote.Prelude.Text.{Text}
use televote.ClientIp.{
  Addr, Prefix, is_trusted, push, split, peer_addr, pick, forwarded, resolve_client_ip,
}

split-cons :
    (sep : ℕ) (s : Text) → (part : Text) × (parts : List Text) × (split sep s ≡ part ∷ parts)
unfolding split
split-cons sep [] = ([], [], refl)
split-cons sep (c ∷ s) = elim (Bool-cases (c == sep)) [
  | inl cut ↦ rw cut ([], split sep s, refl)
  | inr on ↦ let (part, parts, e) = split-cons sep s in rw (on, e) (c ∷ part, parts, refl)
]

push-append :
    (c : ℕ) (xs ys : List Text) (part : Text) (parts : List Text)
    → xs ≡ part ∷ parts
    → push c (xs ++ ys) ≡ push c xs ++ ys
push-append c xs ys part parts e = rw e refl

split-append : (sep : ℕ) (s t : Text) → split sep (s ++ sep ∷ t) ≡ split sep s ++ split sep t
unfolding split
split-append sep [] t = let same = (==_iff sep sep).1 refl in rw same refl
split-append sep (c ∷ s) t = elim (Bool-cases (c == sep)) [
  | inl cut ↦ rw cut (ap (◌∷◌ []) (split-append sep s t))
  | inr on ↦
      let (part, parts, e) = split-cons sep s in
      rw on (
        ap (push c) (split-append sep s t) ∙ push-append c (split sep s) (split sep t) part parts e)
]

module _ (parse_addr : Text → Option Addr) (split_host_port : Text → Option Text)
    (trusted : List Prefix) where
  abbrev pub picks : List Text → Option Addr
  picks = pick parse_addr split_host_port trusted

  pick-append : (xs ys : List Text) (a : Addr) → picks xs ≡ some a → picks (xs ++ ys) ≡ some a
  unfolding pick
  pick-append [] ys a h = absurd (cc)
  pick-append (x ∷ xs) ys a h = ground (arith, pick-append xs ys a)

  -- The parts of a header, from the last to the first.
  abbrev pub hops : Text → List Text
  hops header = reverse (split b',' header)

  hops-append :
      (forged appended : Text) → hops (forged ++ b',' ∷ appended) ≡ hops appended ++ hops forged
  hops-append forged appended =
      ap reverse (split-append b',' forged appended)
      ∙ reverse-append (split b',' forged) (split b',' appended)

  forwarded-same :
      (peer : Addr) (forged appended real_ip : Text) (a : Addr)
      → picks (hops appended) ≡ some a
      → forwarded parse_addr split_host_port trusted peer (forged ++ b',' ∷ appended) real_ip
        ≡ forwarded parse_addr split_host_port trusted peer appended real_ip
  unfolding forwarded
  forwarded-same peer forged appended real_ip a h =
      let more =
        ap picks (hops-append forged appended) ∙ pick-append (hops appended) (hops forged) a h in
      ground arith

  -- What a client writes into X-Forwarded-For does not matter: whatever stands in the header in front of the part that
  -- proxies have appended, the address is the same. The only exception is a request that comes from a
  -- trusted proxy and has no address among the appended ones that can be read and is not trusted.
  pub resolve-Honest :
      (remote forged appended real_ip : Text)
      → (resolve_client_ip parse_addr split_host_port trusted remote
            (forged ++ b',' ∷ appended)
            real_ip
          ≡ resolve_client_ip parse_addr split_host_port trusted remote appended real_ip)
        ⊎ ((peer : Addr) × (peer_addr parse_addr split_host_port remote ≡ some peer)
            × (is_trusted peer trusted ≡ true)
            × (picks (hops appended) ≡ none))
  unfolding resolve_client_ip
  resolve-Honest remote forged appended real_ip = elim (Option-cases (picks (hops appended))) [
    | inl nobody ↦ elim (Option-cases (peer_addr parse_addr split_host_port remote)) [
      | inl unreadable ↦ inl (rw (unreadable, resolve_client_ip) refl)
      | inr (peer, e) ↦ elim (Bool-cases (is_trusted peer trusted)) [
        | inl proxy ↦ inr (peer, e, proxy, nobody)
        | inr direct ↦ inl (rw (e, direct, resolve_client_ip) refl)
      ]
    ]
    | inr (a, h) ↦ elim (Option-cases (peer_addr parse_addr split_host_port remote)) [
      | inl unreadable ↦ inl (rw (unreadable, resolve_client_ip) refl)
      | inr (peer, e) ↦ inl (
          rw (e, resolve_client_ip)
            (ap (λ x. if not (is_trusted peer trusted) then some peer else x)
              (forwarded-same peer forged appended real_ip a h)))
    ]
  ]
