-- ===== src/Kafka.antt =====
-- src/Kafka.cpp, src/KafkaOutput.cpp and src/KafkaW: the producers by their brokers, and the life of a
-- message from `ProducerTopic::produce` to the delivery callback. librdkafka is a parameter: the code
-- that a call of it gives, and when it reports a delivery, come with the events.
pub mod Ownership
pub mod Race
pub mod Producers
pub mod Consumer
pub mod Closing
pub mod Settings
pub mod Connect
use forward_epics_to_kafka.Base.{
  ℕ, zero, suc, ◌+◌, ◌%◌, ◌^◌, ◌==◌, String, Bool, true, false, ◌||◌, Option, none, some, List, [],
  ◌∷◌, ◌++◌, get_elem?, map, str_eq, if◌then◌else◌,
}

abbrev pub word64 : ℕ
word64 = 2 ^ 64

-- Counters of 64 and of 32 bits.
abbrev pub increment : ℕ → ℕ
increment n = (n + 1) % word64

abbrev pub increment32 : ℕ → ℕ
increment32 n = (n + 1) % 2 ^ 32

pub record ProducerStats : Type 0 where
  pub produced : ℕ
  pub produce_fail : ℕ
  pub local_queue_full : ℕ
  pub produce_cb : ℕ
  pub produce_cb_fail : ℕ
  pub poll_served : ℕ
  pub msg_too_large : ℕ
  pub produced_bytes : ℕ
  pub out_queue : ℕ

-- The codes of `RdKafka::Producer::produce` that the source tells apart.
pub data ErrorCode : Type 0 where
  no_error queue_full msg_size_too_large other_error : ErrorCode

-- `live` holds the messages that were allocated and not deleted, by their addresses, and `opaque` the
-- addresses that librdkafka was given and has not handed back.
pub record Producer : Type 0 where
  pub stats : ProducerStats
  pub total_messages_produced : ℕ
  pub next : ℕ
  pub live : List ℕ
  pub opaque : List ℕ

abbrev pub new_stats : ProducerStats
new_stats = record {
  produced = 0;
  produce_fail = 0;
  local_queue_full = 0;
  produce_cb = 0;
  produce_cb_fail = 0;
  poll_served = 0;
  msg_too_large = 0;
  produced_bytes = 0;
  out_queue = 0;
}

abbrev pub new_producer : Producer
new_producer = record {
  stats = new_stats;
  total_messages_produced = 0;
  next = 0;
  live = [];
  opaque = [];
}

abbrev pub mem : ℕ → List ℕ → Bool
mem m [] = false
mem m (n ∷ ns) = (m == n) || mem m ns

abbrev pub erase : ℕ → List ℕ → List ℕ
erase m [] = []
erase m (n ∷ ns) = if m == n then ns else n ∷ erase m ns

abbrev pub remove_at : ℕ → List ℕ → List ℕ
remove_at i [] = []
remove_at zero (n ∷ ns) = ns
remove_at (suc i) (n ∷ ns) = n ∷ remove_at i ns

-- `none` deletes what is not there.
unfoldable pub delete_message : ℕ → Producer → Option Producer
delete_message m p = if mem m p.live then some (record p { live = erase m p.live }) else none

unfoldable pub make_message : Producer → Producer
make_message p = record p { next = suc p.next; live = p.live ++ p.next ∷ [] }

-- `produce(std::unique_ptr<ProducerMessage> &)`, with its result and whether it released the pointer.
unfoldable pub produce_message : ErrorCode → ℕ → ℕ → Producer → Producer × ℕ × Bool
produce_message no_error size m p = (
  record p {
    stats = record p.stats {
      produced = increment p.stats.produced;
      produced_bytes = (p.stats.produced_bytes + size) % word64;
    };
    total_messages_produced = increment p.total_messages_produced;
    opaque = p.opaque ++ m ∷ [];
  },
  0,
  true,
)
produce_message queue_full size m p = (
  record p { stats = record p.stats { local_queue_full = increment32 p.stats.local_queue_full } },
  1,
  false,
)
produce_message msg_size_too_large size m p = (
  record p { stats = record p.stats { msg_too_large = increment p.stats.msg_too_large } },
  1,
  false,
)
produce_message other_error size m p = (
  record p { stats = record p.stats { produce_fail = increment32 p.stats.produce_fail } },
  1,
  false,
)

-- `produce(unsigned char *, size_t)`, whose `Size` is a `uint32_t`: a message that was not released
-- dies with its pointer.
unfoldable pub produce : ErrorCode → ℕ → Producer → Option (Producer × ℕ)
unfolding produce_message make_message delete_message
produce code size p =
    let (p', result, released) = produce_message code (size % 2 ^ 32) p.next (make_message p) in
    if released
    then some (p', result)
    else elim (delete_message p.next p') [ none ↦ none | some p2 ↦ some (p2, result) ]

abbrev pub delivered : Bool → ProducerStats → ProducerStats
delivered true s = record s { produce_cb_fail = increment s.produce_cb_fail }
delivered false s = record s { produce_cb = increment s.produce_cb }

-- `ProducerDeliveryCb::dr_cb`; the first argument is `Message.err()`.
unfoldable pub dr_cb : Bool → ℕ → Producer → Option Producer
unfolding delete_message
dr_cb failed m p = delete_message m (record p { stats = delivered failed p.stats })

-- librdkafka hands back the i-th of the addresses that it holds, and never twice.
unfoldable pub report_delivery : ℕ → Bool → Producer → Option Producer
unfolding dr_cb
report_delivery i failed p = elim (get_elem? p.opaque i) [
  | none ↦ some p
  | some m ↦ dr_cb failed m (record p { opaque = remove_at i p.opaque })
]

-- `Producer::poll`, by what librdkafka says: the events that it served, whose callbacks are events of
-- their own below, and the length of its queue.
unfoldable pub poll : ℕ → ℕ → Producer → Producer
poll served queue_length p = record p {
  stats = record p.stats {
    poll_served = (p.stats.poll_served + served) % word64;
    out_queue = queue_length % 2 ^ 32;
  };
}

pub data ProducerEvent : Type 0 where
  publish : ErrorCode → ℕ → ProducerEvent
  delivery : ℕ → Bool → ProducerEvent
  polled : ℕ → ℕ → ProducerEvent

unfoldable pub producer_event : ProducerEvent → Producer → Option Producer
unfolding produce report_delivery poll
producer_event (publish code size) p = elim (produce code size p) [
  | none ↦ none
  | some (p', r) ↦ some p'
]
producer_event (delivery i failed) p = report_delivery i failed p
producer_event (polled served queue_length) p = some (poll served queue_length p)

unfoldable pub producer_events : List ProducerEvent → Producer → Option Producer
unfolding producer_event
producer_events [] p = some p
producer_events (e ∷ es) p = elim (producer_event e p) [
  | none ↦ none
  | some p' ↦ producer_events es p'
]
