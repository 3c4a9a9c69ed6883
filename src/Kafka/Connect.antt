-- ===== src/Kafka/Connect.antt =====
-- The constructor of src/KafkaW/Consumer.cpp and the callback for librdkafka's events of
-- src/KafkaW/KafkaEventCb.h. The identity of the process is an argument.
use Prim.Native.String.{◌++◌ as append_text}
use forward_epics_to_kafka.Base.{
  ℕ, ◌≡◌, refl, subst, String, Bool, map, Result, ok, err, runtime_error, Void, if◌then◌else◌, All,
  Distinct, arith, inl, inr, Bool-cases,
}
use forward_epics_to_kafka.Kafka.Settings.{
  ConfApi, IsConf, BrokerSettings, apply, apply-Holds, Holds,
}

module _ {R : Type 0} (api : ConfApi R) where
  -- What is set in front of `apply`; nobody looks whether it is taken.
  unfoldable pub identified : String → String → R → R
  identified address pid r =
      (api.set "group.id" (append_text "forwarder-command-listener--pid" pid)
        (api.set "metadata.broker.list" address (api.set_callback "event_cb" r)).0).0

  -- Here the exception of `apply` goes on as it is.
  abbrev pub create_consumer : (R → Bool) → R × Result Void → Result R
  create_consumer creates (r, err e) = err e
  create_consumer creates (r, ok u) =
      if creates r then ok r else err (runtime_error "can not create Kafka consumer")

  -- The constructor of `Consumer`, with what it is made from.
  unfoldable pub make_consumer : (R → Bool) → BrokerSettings → String → R → Result R
  unfolding identified apply
  make_consumer creates settings pid r =
      create_consumer creates
        (apply api settings.kafka_configuration (identified settings.address pid r))

-- The events and their severities.
pub data EventType : Type 0 where
  event_error event_stats event_log event_throttle : EventType

pub data Severity : Type 0 where
  debug info notice warning error critical alert emerg : Severity

-- `LogLevels`: the levels of spdlog by their numbers.
unfoldable pub log_levels : Severity → ℕ
log_levels debug = 0
log_levels info = 1
log_levels notice = 2
log_levels warning = 3
log_levels error = 4
log_levels critical = 5
log_levels alert = 5
log_levels emerg = 5

-- What `event_cb` logs: the level, and how the line begins.
unfoldable pub event_cb : EventType → Severity → ℕ × String
unfolding log_levels
event_cb event_error s = (log_levels s, "Kafka EVENT_ERROR id: ")
event_cb event_stats s = (log_levels s, "Kafka Stats id: ")
event_cb event_log s = (log_levels s, "Kafka Log id: ")
event_cb event_throttle s = (log_levels s, "Kafka Event ")

module _ {R : Type 0} (api : ConfApi R) (laws : IsConf api) where
  -- A consumer that is made has every setting.
  make_consumer_lem :
      (creates : R → Bool) (settings : BrokerSettings) (pid : String) (r r' : R)
      → Distinct (map (λ (k, v). k) settings.kafka_configuration)
      → make_consumer api creates settings pid r ≡ ok r'
      → All (Holds api laws r') settings.kafka_configuration
  unfolding make_consumer
  make_consumer_lem creates settings pid r r' d e =
      made (apply api settings.kafka_configuration (identified api settings.address pid r))
        (apply-Holds api laws settings.kafka_configuration (identified api settings.address pid r)
          d)
        e
    where
      made :
          (applied : R × Result Void)
          → (applied.1 ≡ ok tt → All (Holds api laws applied.0) settings.kafka_configuration)
          → create_consumer api creates applied ≡ ok r'
          → All (Holds api laws r') settings.kafka_configuration
      made (s, err x) h f = ground (arith, f)
      made (s, ok u) h f = elim (Bool-cases (creates s)) [
        | inl c ↦
            let same : s ≡ r' = ground (arith, c, f) in
            subst (λ x. All (Holds api laws x) settings.kafka_configuration) same (h refl)
        | inr c ↦ ground (arith, c, f)
      ]
