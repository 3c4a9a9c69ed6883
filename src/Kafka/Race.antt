-- ===== src/Kafka/Race.antt =====
-- `ProducerTopic::produce` of src/KafkaW/ProducerTopic.cpp and `Producer::produce` of
-- src/KafkaW/Producer.cpp, step by step: what another thread's poll may do between librdkafka's answer
-- and the counters.
pub mod Held
pub mod Threads
use forward_epics_to_kafka.Base.{
  ℕ, zero, suc, ◌+◌, ◌%◌, ◌^◌, ◌<◌, ◌==◌, ◌≡◌, ◌≢◌, refl, sym, ap, ◌∙◌, subst, Bool, true, false,
  Option, none, some, List, [], ◌∷◌, ◌++◌, get_elem?, All, Distinct, Distinct-append, length,
  length-append, All-append, arith, inl, inr, Bool-cases, Option-cases, if◌then◌else◌, append-nil,
  append_assoc,
}
use forward_epics_to_kafka.Stream.Fill.Batches.{All-implies}
use forward_epics_to_kafka.Kafka.{
  word64, increment, increment32, Producer, ErrorCode, no_error, queue_full, msg_size_too_large,
  other_error, mem, erase, remove_at, delete_message, delivered, make_message, dr_cb,
  report_delivery,
}
use forward_epics_to_kafka.Kafka.Ownership.{Owned, Goes}

-- The delivery callbacks of a poll.
unfoldable pub serve : List (ℕ × Bool) → Producer → Option Producer
unfolding report_delivery
serve [] p = some p
serve ((i, failed) ∷ ds) p = elim (report_delivery i failed p) [
  | none ↦ none
  | some p' ↦ serve ds p'
]

-- librdkafka holds the message from here on, if it accepts it.
abbrev pub enqueue : ErrorCode → ℕ → Producer → Producer
enqueue no_error m p = record p { opaque = p.opaque ++ m ∷ [] }
enqueue _ m p = p

-- `Producer::produce`: a poll, and then librdkafka's answer.
unfoldable pub producer_produce : List (ℕ × Bool) → ErrorCode → ℕ → Producer → Option Producer
unfolding serve
producer_produce served code m p = elim (serve served p) [
  | none ↦ none
  | some p' ↦ some (enqueue code m p')
]

abbrev pub rejected_as : ErrorCode → Producer → Producer
rejected_as queue_full p = record p {
  stats = record p.stats { local_queue_full = increment32 p.stats.local_queue_full };
}
rejected_as msg_size_too_large p = record p {
  stats = record p.stats { msg_too_large = increment p.stats.msg_too_large };
}
rejected_as _ p = record p {
  stats = record p.stats { produce_fail = increment32 p.stats.produce_fail };
}

-- The switch in `ProducerTopic::produce` with what follows it: the size is read from the message if it
-- was accepted, and else the message dies with its pointer. `none` is an access to a deleted message.
unfoldable pub account : ErrorCode → ℕ → ℕ → Producer → Option (Producer × ℕ)
unfolding delete_message
account no_error size m p =
    if mem m p.live
    then some (
      record p {
        stats = record p.stats {
          produced = increment p.stats.produced;
          produced_bytes = (p.stats.produced_bytes + size) % word64;
        };
        total_messages_produced = increment p.total_messages_produced;
      },
      0,
    )
    else none
account code size m p = elim (delete_message m (rejected_as code p)) [
  | none ↦ none
  | some p' ↦ some (p', 1)
]

-- Until the counters: `served` are the callbacks of the own poll, `between` those of the polls of other
-- threads after librdkafka's answer.
unfoldable pub reach_switch :
    List (ℕ × Bool) → ErrorCode → List (ℕ × Bool) → Producer → Option Producer
unfolding make_message producer_produce serve
reach_switch served code between p = elim (producer_produce served code p.next (make_message p)) [
  | none ↦ none
  | some p' ↦ serve between p'
]

unfoldable pub produce_among :
    List (ℕ × Bool) → ErrorCode → List (ℕ × Bool) → ℕ → Producer → Option (Producer × ℕ)
unfolding reach_switch account
produce_among served code between size p = elim (reach_switch served code between p) [
  | none ↦ none
  | some p' ↦ account code (size % 2 ^ 32) p.next p'
]
