-- ===== src/Lag.antt =====
-- internal/platform/app/wire.go, kafkaLag: how far the consumers are behind. What the admin client answers is
-- given; the maps of its answer are lists, in the order in which the loops go through them. A partition
-- whose lag cannot be read has the lag -1.
pub mod Backlog
use televote.Prelude.{Bool, List, [], ◌∷◌, Option, none, some, not, if◌then◌else◌, is_nil}
use televote.Prelude.Int.{ℤ, pos, add64, ltb_ℤ}
use televote.Prelude.Text.{Text, text_eq}
use televote.Errors.{Result, ok, err, Failure}

-- The lags of the partitions, of the topics, and of the groups.
abbrev pub Partitions : Type 0
Partitions = List ℤ

abbrev pub Topics : Type 0
Topics = List (Text × Partitions)

abbrev pub Groups : Type 0
Groups = List (Text × Topics)

unfoldable pub add_partitions : Partitions → ℤ → ℤ
add_partitions [] total = total
add_partitions (n ∷ ns) total = add_partitions ns (if ltb_ℤ (pos 0) n then add64 total n else total)

unfoldable pub add_topics : Text → Topics → ℤ → ℤ
add_topics topic [] total = total
add_topics topic ((name, partitions) ∷ topics) total =
    add_topics topic topics
      (if not (text_eq name topic) then total else add_partitions partitions total)

unfoldable pub add_groups : Text → Groups → ℤ → ℤ
add_groups topic [] total = total
add_groups topic ((name, topics) ∷ groups) total =
    add_groups topic groups (add_topics topic topics total)

abbrev total_of : Text → Result Groups → Result ℤ
total_of topic (err e) = err e
total_of topic (ok groups) = ok (add_groups topic groups (pos 0))

-- `Lag`, given the consumer group of the client's options if it is a text.
unfoldable pub consumer_lag : Option Text → Result Groups → Text → Result ℤ
consumer_lag none answer topic = err []
consumer_lag (some group) answer topic = if is_nil group then err [] else total_of topic answer
