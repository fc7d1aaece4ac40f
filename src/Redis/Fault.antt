-- ===== src/Redis/Fault.antt =====
-- internal/adapter/redis/tally.go: which errors of the client are worth a retry. The client's error
-- values are a parameter of the world: a fault is what its methods say of it.
use televote.Prelude.{
  ◌≡◌, refl, ◌↔◌, ◌⊎◌, Bool-cases, inl, inr, Bool, true, false, ◌||◌, map, ◌++◌, sym, ◌∙◌, List, [],
  ◌∷◌, if◌then◌else◌, arith,
}
use televote.Prelude.Text.{Text, codes, has_prefix}
use televote.Errors.{Failure, is, context_canceled, closing, store_unavailable}

-- A `*rueidis.RedisError`: an error reply of the server.
pub record ErrorReply : Type 0 where
  pub is_moved : Bool
  pub is_ask : Bool
  pub is_loading : Bool
  pub is_cluster_down : Bool
  pub is_try_again : Bool
  pub message : Text

-- An error of the client: its chain, and the reply in it, if there is one.
pub data Fault : Type 0 where
  reply : ErrorReply → Failure → Fault
  no_reply : Failure → Fault

abbrev pub chain : Fault → Failure
chain (reply e f) = f
chain (no_reply f) = f

abbrev pub transient_replies : List Text
transient_replies =
    codes "READONLY"
    ∷ codes "MASTERDOWN"
    ∷ codes "CLUSTERDOWN"
    ∷ codes "TRYAGAIN"
    ∷ codes "LOADING"
    ∷ codes "OOM"
    ∷ codes "BUSY"
    ∷ codes "NOREPLICAS"
    ∷ []

unfoldable pub any_prefix : Text → List Text → Bool
any_prefix msg [] = false
any_prefix msg (p ∷ ps) = has_prefix msg p || any_prefix msg ps

unfoldable pub transient_reply : Text → Bool
unfolding any_prefix
transient_reply msg = any_prefix msg transient_replies

unfoldable pub transient_kind : Fault → Bool
transient_kind (reply e f) =
    e.is_moved
    || e.is_ask
    || e.is_loading
    || e.is_cluster_down
    || e.is_try_again
    || transient_reply e.message
transient_kind (no_reply f) = true

unfoldable pub transient : Fault → Bool
unfolding transient_kind
transient f =
    if is (chain f) context_canceled || is (chain f) closing then false else transient_kind f

unfoldable pub classify : Fault → Failure
unfolding transient
classify f = if transient f then store_unavailable ∷ chain f else chain f

-- One of some answers is yes.
abbrev pub Some : List Bool → Type 0
Some [] = ⊥
Some (b ∷ bs) = (b ≡ true) ⊎ Some bs

any_true : List Bool → Bool
any_true [] = false
any_true (b ∷ bs) = b || any_true bs

any_true-Some : (bs : List Bool) → any_true bs ≡ true ↔ Some bs
unfolding any_true
any_true-Some [] = (λ h. cc, λ h. absurd h)
any_true-Some (b ∷ bs) = let ih = any_true-Some bs in (λ h. ground arith, λ h. ground arith)

-- What makes a fault worth a retry: no reply of the server, a redirection, a server that starts or a cluster
-- that is down, or a reply that begins with one of eight words.
abbrev pub Passing : Fault → Type 0
Passing (no_reply f) = Unit {0}
Passing (reply e f) = Some (
    e.is_moved
    ∷ e.is_ask
    ∷ e.is_loading
    ∷ e.is_cluster_down
    ∷ e.is_try_again
    ∷ has_prefix e.message (codes "READONLY")
    ∷ has_prefix e.message (codes "MASTERDOWN")
    ∷ has_prefix e.message (codes "CLUSTERDOWN")
    ∷ has_prefix e.message (codes "TRYAGAIN")
    ∷ has_prefix e.message (codes "LOADING")
    ∷ has_prefix e.message (codes "OOM")
    ∷ has_prefix e.message (codes "BUSY")
    ∷ has_prefix e.message (codes "NOREPLICAS")
    ∷ [])

six : (a b c d e f : Bool) → (a || b || c || d || e || f) ≡ any_true (a ∷ b ∷ c ∷ d ∷ e ∷ []) || f
unfolding any_true
six a b c d e f = ground arith

any_true-append : (xs ys : List Bool) → any_true xs || any_true ys ≡ any_true (xs ++ ys)
unfolding any_true
any_true-append [] ys = refl
any_true-append (x ∷ xs) ys = let ih = any_true-append xs ys in ground arith

transient_kind-Passing : (f : Fault) → transient_kind f ≡ true ↔ Passing f
unfolding transient_kind transient_reply any_prefix any_true
transient_kind-Passing (no_reply f) = (λ h. tt, λ h. refl)
transient_kind-Passing (reply e f) =
    let flags = e.is_moved ∷ e.is_ask ∷ e.is_loading ∷ e.is_cluster_down ∷ e.is_try_again ∷ [] in
    let words = map (λ (w : Text). has_prefix e.message w) transient_replies in
    let same : transient_kind (reply e f) ≡ any_true (flags ++ words) =
      six e.is_moved e.is_ask e.is_loading e.is_cluster_down e.is_try_again (any_true words)
      ∙ any_true-append flags words in
    (
      λ h. (any_true-Some (flags ++ words)).0 (sym same ∙ h),
      λ h. same ∙ (any_true-Some (flags ++ words)).1 h,
    )

-- A fault that does not already carry ErrStoreUnavailable comes out with it exactly when neither the context
-- was cancelled nor the client is closing, and the server did not reply, as at a timeout, or replied with
-- a redirection, that it is loading, that the cluster is down, that the command is to be tried again, or
-- with a message that begins with one of the eight words for a passing state.
pub classify_iff :
    (f : Fault)
    → is (chain f) store_unavailable ≡ false
    → is (classify f) store_unavailable ≡ true
      ↔ (is (chain f) context_canceled ≡ false) × (is (chain f) closing ≡ false) × Passing f
unfolding classify is transient
classify_iff f h = (
  λ e. elim (Bool-cases (is (chain f) context_canceled)) [
    | inl c ↦ absurd (ground arith)
    | inr c ↦ elim (Bool-cases (is (chain f) closing)) [
      | inl d ↦ absurd (ground arith)
      | inr d ↦ elim (Bool-cases (transient_kind f)) [
        | inl k ↦ (c, d, (transient_kind-Passing f).0 k)
        | inr k ↦ absurd (ground arith)
      ]
    ]
  ],
  λ (c, d, k). let kind = (transient_kind-Passing f).1 k in ground arith,
)
