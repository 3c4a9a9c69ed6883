-- ===== src/Tests/Broker.antt =====
-- Producers and consumers.
use forward_epics_to_kafka.Base.{
  ◌≢◌, not, eq_iff, arith, ◌∷◌, String, Option, if◌then◌else◌, str_eq, false,
}
use forward_epics_to_kafka.Kafka.Settings.{ConfApi, IsConf, BrokerSettings}
use forward_epics_to_kafka.Base.{ℕ, ◌≡◌, refl, some, List, [], ◌∷◌, ok}
use forward_epics_to_kafka.Kafka.Consumer.{
  TopicMetadata, get_topic_partition_numbers, Sorted, count, get_topic_partition_numbers-Sorted,
}

abbrev topics : List TopicMetadata
topics = record { topic = "commands"; partitions = 2 ∷ 0 ∷ 1 ∷ [] } ∷ []

get_topic_partition_numbers-Sorted_example :
    (ns : List ℕ) × (get_topic_partition_numbers (some topics) "commands" ≡ ok ns)
    × Sorted ns
    × (count 0 ns ≡ 1)
get_topic_partition_numbers-Sorted_example =
    get_topic_partition_numbers-Sorted topics "commands"
      (record { topic = "commands"; partitions = 2 ∷ 0 ∷ 1 ∷ [] }) 0 refl

-- A configuration by keys, which refuses the key "bad".
abbrev Conf : Type 0
Conf = String → Option String

abbrev put : String → String → Conf → Conf
put k v r l = if str_eq k l then some v else r l

abbrev conf_api : ConfApi Conf
conf_api = record {
  set = λ k v r. (if str_eq k "bad" then r else put k v r, not (str_eq k "bad"));
  set_callback = λ k r. r;
  get = λ k r. r k;
}

conf_api-IsConf : IsConf conf_api
conf_api-IsConf = record {
  taken = λ k v r h. grind (arith, h, eq_iff k k);
  refused = λ k v r h. ground (arith, h);
  other = λ k v l r n. grind (arith, n, eq_iff k l);
  callback = λ k l r. refl;
}

abbrev broker_settings : BrokerSettings
broker_settings = record {
  address = "host:9092";
  kafka_configuration = ("api.version.request", "true") ∷ ("queue.buffering.max.ms", "50") ∷ [];
}

unequal : (s t : String) → str_eq s t ≡ false → s ≢ t
unequal s t h e = grind (arith, h, e, eq_iff s t)
