-- ===== src/ClientIp.antt =====
-- internal/platform/httpx/clientip.go: which address a request comes from. An IPv4 address is a number of 32 bits and
-- an IPv6 address one of 128 with a zone. Reading the text of an address or of a host with a port is a
-- parameter; a header that is not set reads as the empty text.
pub mod Honest
use mathlib.Core.List.{reverse}
use televote.Prelude.{
  ℕ, ◌+◌, ◌-◌, ◌*◌, ◌/◌, ◌%◌, ◌^◌, Bool, true, false, not, ◌&&◌, ◌||◌, List, [], ◌∷◌, Option, none,
  some, ◌==◌, if◌then◌else◌, is_nil,
}
use televote.Prelude.Text.{Text, trim_space}

pub data Addr : Type 0 where
  v4 : ℕ → Addr
  v6 : ℕ → Text → Addr

pub record Prefix : Type 0 where
  pub addr : Addr
  pub bits : ℕ

-- `netip.Addr.Unmap`.
unfoldable pub unmap : Addr → Addr
unmap (v4 a) = v4 a
unmap (v6 a zone) = if a / 2 ^ 32 == 0xffff then v4 (a % 2 ^ 32) else v6 a zone

-- `netip.Prefix.Contains`: an address with a zone lies in no prefix, nor does one of the other family.
unfoldable pub prefix_contains : Prefix → Addr → Bool
prefix_contains p (v4 a) = elim p.addr [
  | v4 b ↦ a / 2 ^ (32 - p.bits) == b / 2 ^ (32 - p.bits)
  | v6 b zone ↦ false
]
prefix_contains p (v6 a zone) = elim p.addr [
  | v4 b ↦ false
  | v6 b _ ↦ is_nil zone && a / 2 ^ (128 - p.bits) == b / 2 ^ (128 - p.bits)
]

unfoldable pub is_trusted : Addr → List Prefix → Bool
is_trusted a [] = false
is_trusted a (p ∷ trusted) = prefix_contains p a || is_trusted a trusted

-- `strings.Split` at one character.
abbrev pub push : ℕ → List Text → List Text
push c [] = (c ∷ []) ∷ []
push c (part ∷ parts) = (c ∷ part) ∷ parts

unfoldable pub split : ℕ → Text → List Text
split sep [] = [] ∷ []
split sep (c ∷ s) = let rest = split sep s in if c == sep then [] ∷ rest else push c rest

module _ (parse_addr : Text → Option Addr) (split_host_port : Text → Option Text) where
  unfoldable pub peer_addr : Text → Option Addr
  peer_addr remote =
      let host : Text = elim (split_host_port remote) [ none ↦ remote | some h ↦ h ] in
      elim (parse_addr (trim_space host)) [ none ↦ none | some a ↦ some (unmap a) ]

  -- The loop over the parts of the header, from the last to the first, given in that order.
  unfoldable pub pick : List Prefix → List Text → Option Addr
  pick trusted [] = none
  pick trusted (part ∷ parts) =
      let go_on = pick trusted parts in
      elim (parse_addr (trim_space part)) [
        | none ↦ go_on
        | some candidate ↦
            if not (is_trusted candidate trusted) then some (unmap candidate) else go_on
      ]

  unfoldable pub forwarded : List Prefix → Addr → Text → Text → Option Addr
  forwarded trusted peer forwarded_for real_ip =
      elim (pick trusted (reverse (split b',' forwarded_for))) [
        | some a ↦ some a
        | none ↦ elim (parse_addr (trim_space real_ip)) [
          | none ↦ some peer
          | some a ↦ some (unmap a)
        ]
      ]

  -- `resolveClientIP`, given the remote address and the headers X-Forwarded-For and X-Real-IP.
  unfoldable pub resolve_client_ip : List Prefix → Text → Text → Text → Option Addr
  resolve_client_ip trusted remote forwarded_for real_ip = elim (peer_addr remote) [
    | none ↦ none
    | some peer ↦
        if not (is_trusted peer trusted)
        then some peer
        else forwarded trusted peer forwarded_for real_ip
  ]

-- `LimitKey`: the address, or the first 64 bits of an IPv6 address.
pub data Key : Type 0 where
  unknown : Key
  single : ℕ → Key
  block : ℕ → Key

unfoldable pub limit_key : Option Addr → Key
limit_key none = unknown
limit_key (some (v4 a)) = single a
limit_key (some (v6 a zone)) = block (a / 2 ^ 64 * 2 ^ 64)
