-- ===== src/Kafka/Producers.antt =====
-- src/Kafka.cpp and src/KafkaOutput.cpp: the producers of `InstanceSet`, one for each broker, and the
-- totals of what was sent. Whether librdkafka makes a producer or a topic is a parameter.
use forward_epics_to_kafka.Base.{
  ℕ, ◌+◌, ◌%◌, ◌^◌, ◌==◌, ◌≡◌, ◌≢◌, String, Bool, false, ◌||◌, Option, none, some, List, [], ◌∷◌,
  ◌++◌, All, Distinct, Distinct-append, Result, ok, err, runtime_error, Step, str_eq, eq_iff,
  if◌then◌else◌, arith, inl, inr, Bool-cases,
}
use forward_epics_to_kafka.Base.Int.{ℤ, pos, negsuc}
use forward_epics_to_kafka.Uri.{Uri}
use forward_epics_to_kafka.Forwarder.{ProducerTopic}

pub record KafkaLibrary : Type 0 where
  pub makes_producer : String → Bool
  pub makes_topic : String → String → Bool

abbrev pub has_host : String → List String → Bool
has_host h [] = false
has_host h (k ∷ ks) = str_eq h k || has_host h ks

module _ (lib : KafkaLibrary) where
  -- The constructor of `ProducerTopic`.
  unfoldable pub make_topic : Uri → Result ProducerTopic
  make_topic u =
      if lib.makes_topic u.host_port u.topic
      then ok (record { broker = u.host_port; name = u.topic })
      else err (runtime_error "Can not create Kafka topic")

  -- `InstanceSet::createProducerTopic`; the state is the keys of `ProducersByHost`.
  unfoldable pub create_producer_topic : Uri → Step (List String) ProducerTopic
  unfolding make_topic
  create_producer_topic u hosts =
      if has_host u.host_port hosts
      then (hosts, make_topic u)
      else (if lib.makes_producer u.host_port
          then (hosts ++ u.host_port ∷ [], make_topic u)
          else (hosts, err (runtime_error "can not create Kafka handle")))

  unfoldable pub create_all : List Uri → List String → List String
  unfolding create_producer_topic
  create_all [] hosts = hosts
  create_all (u ∷ us) hosts = create_all us (create_producer_topic u hosts).0

  missing : (h : String) (ks : List String) → has_host h ks ≡ false → All (λ k. h ≢ k) ks
  missing h [] e = tt
  missing h (k ∷ ks) e = elim (Bool-cases (str_eq h k)) [
    | inl same ↦ ground (arith, e, same)
    | inr other ↦ (
      grind (arith, eq_iff h k, other),
      missing h ks (let e' : has_host h ks ≡ false = ground (arith, e, other) in e'),
    )
  ]

  create_producer_topic-Distinct :
      (u : Uri) (hosts : List String) → Distinct hosts → Distinct (create_producer_topic u hosts).0
  unfolding create_producer_topic
  create_producer_topic-Distinct u hosts d = elim (Bool-cases (has_host u.host_port hosts)) [
    | inl known ↦ rw (known, create_producer_topic) d
    | inr new ↦ elim (Bool-cases (lib.makes_producer u.host_port)) [
      | inl made ↦
          rw (new, create_producer_topic)
            (rw (made, create_producer_topic)
              (Distinct-append hosts u.host_port d (missing u.host_port hosts new)))
      | inr refused ↦ rw (new, create_producer_topic) (rw (refused, create_producer_topic) d)
    ]
  ]

  -- However many topics are asked for, and whichever of them are refused, a broker has one producer.
  pub create_all-Distinct :
      (us : List Uri) (hosts : List String) → Distinct hosts → Distinct (create_all us hosts)
  unfolding create_all
  create_all-Distinct [] hosts d = d
  create_all-Distinct (u ∷ us) hosts d =
      create_all-Distinct us (create_producer_topic u hosts).0
        (create_producer_topic-Distinct u hosts d)

-- `g__total_msgs_to_kafka` and `g__total_bytes_to_kafka`.
pub record Totals : Type 0 where
  pub messages : ℕ
  pub bytes : ℕ

-- `KafkaOutput::emit`: `none` is an empty message, the size is that of the buffer, and the result of
-- `produce` is an argument.
unfoldable pub emit : Option ℕ → ℕ → Totals → Totals × ℤ
emit none produced t = (t, negsuc 1023)
emit (some size) produced t = (
  if produced == 0
      then record { messages = (t.messages + 1) % 2 ^ 64; bytes = (t.bytes + size) % 2 ^ 64 }
      else t,
  pos produced,
)
