-- ===== src/Examples/Platform.antt =====
-- Examples of the advice on capacity, of client addresses and of the probes.
use televote.Prelude.{
  ◌*◌, ◌^◌, ◌<◌, ◌==◌, arith, refl, ◌≡◌, ◌↔◌, ◌⊎◌, Bool, true, false, List, [], ◌∷◌, ◌++◌, All,
  Option, none, some,
}
use televote.Prelude.Int.{pos, negsuc}
use televote.Prelude.Text.{Text, codes, text_eq}
use televote.Errors.{ok, err, Failure}
use televote.Domain.Poll.{is_positive, second}
use televote.Capacity.{Advisor, Advice, capacity_for, read_lag, advise}
use televote.Capacity.Bounds.{Enough, capacity_for-Enough}
use televote.Capacity.Phases.{Verdict, advise-Verdict}
use televote.ClientIp.{Addr, v4, Prefix, is_trusted, peer_addr, resolve_client_ip}
use televote.ClientIp.Honest.{picks, hops, resolve-Honest}
use televote.Health.{Check, served_method, ready_probe, signalled, serve}
use televote.Health.Ready.{Passes, Orderly, ready_while_serving}
use televote.Snapshot.{drained}
use televote.Lag.{Groups, consumer_lag}
use televote.Lag.Backlog.{waiting, of_topic, backlog, lag-backlog}
use televote.Examples.{whole, poll}

capacity_for-Enough_example :
    Enough (is_positive (pos 1_000_000)) (capacity_for whole (pos 1_000_000) (pos (300 * second)))
capacity_for-Enough_example = capacity_for-Enough whole (pos 1_000_000) (pos (300 * second))

abbrev advisor : Advisor
advisor = record {
  drain = 300 * second;
  prewarm = 40;
  baseline = record {
    vote_api = pos 2;
    consumers = pos 0;
    redis_masters = pos 0;
    kafka_partitions = pos 1;
  };
}

-- The poll has closed, and the lag of the consumers cannot be read.
advise-Verdict_example :
    (x : Advice) × (advise whole advisor (ok (poll ∷ [])) (some (err [])) 210 ≡ ok x)
    × Verdict whole advisor 210 (pos 1) (poll ∷ []) x
unfolding read_lag
advise-Verdict_example = advise-Verdict whole advisor (poll ∷ []) (some (err [])) 210

-- Addresses of one character.
abbrev parse_addr : Text → Option Addr
parse_addr (c ∷ []) = some (v4 c)
parse_addr _ = none

abbrev no_port : Text → Option Text
no_port s = none

-- The proxy's address.
abbrev proxies : List Prefix
proxies = record { addr = v4 112; bits = 32 } ∷ []

resolve-Honest_example :
    (resolve_client_ip parse_addr no_port proxies (codes "p") (codes "x,y" ++ b',' ∷ codes "c,p") []
      ≡ resolve_client_ip parse_addr no_port proxies (codes "p") (codes "c,p") [])
    ⊎ ((peer : Addr) × (peer_addr parse_addr no_port (codes "p") ≡ some peer)
        × (is_trusted peer proxies ≡ true)
        × (picks parse_addr no_port proxies (hops parse_addr no_port proxies (codes "c,p")) ≡ none))
resolve-Honest_example =
    resolve-Honest parse_addr no_port proxies (codes "p") (codes "x,y") (codes "c,p") []

abbrev checks : List Check
checks = some none ∷ none ∷ []

abbrev gate : Bool
gate = true

abbrev clean : Option Failure
clean = none

abbrev broken : Option Failure
broken = some []

ready_while_serving_example :
    (((ready_probe (codes "GET") checks gate).0 ≡ 200)
      ↔ ((served_method (codes "GET") ≡ true) × All Passes checks × (gate ≡ true)))
    × Orderly false (serve true signalled clean broken).1
    × (((serve true signalled clean broken).0 ≡ ok tt) ↔ ((clean ≡ none) × (broken ≡ none)))
ready_while_serving_example = ready_while_serving (codes "GET") checks gate true clean broken

-- Two partitions of the topic lag, and the lag of a third could not be read.
abbrev groups : Groups
groups =
    (
      codes "counting",
      (codes "votes", pos 3 ∷ negsuc 0 ∷ pos 4 ∷ []) ∷ (codes "other", pos 9 ∷ []) ∷ [],
    )
    ∷ []

few_wait : backlog (codes "votes") groups < 2 ^ 63
unfolding backlog of_topic waiting text_eq
few_wait = omega arith

lag-backlog_example :
    (consumer_lag (some (codes "counting")) (ok groups) (codes "votes")
      ≡ ok (pos (backlog (codes "votes") groups)))
    × (drained (some (consumer_lag (some (codes "counting")) (ok groups) (codes "votes")))
        ≡ ok (backlog (codes "votes") groups == 0))
    × ((e : Failure)
        → drained (some (consumer_lag (some (codes "counting")) (err e) (codes "votes"))) ≡ err e)
lag-backlog_example = lag-backlog (codes "counting") (codes "votes") groups refl few_wait
