-- ===== src/Tests/Outputs.antt =====
-- A round of a worker whose outputs are those of Kafka.
use forward_epics_to_kafka.Base.{ℕ, Option, none, some, List, [], ◌∷◌, ◌==◌, if◌then◌else◌}
use forward_epics_to_kafka.Stream.Fill.{Heap}
use forward_epics_to_kafka.TdcTime.Stamps.{chopper}
use forward_epics_to_kafka.ConversionWorker.{WorkerState}
use forward_epics_to_kafka.Pipeline.{Shared}
use forward_epics_to_kafka.Kafka.{no_error, queue_full, new_producer}
use forward_epics_to_kafka.Delivery.{Update, OutputPath, f142, tdc_time, Environment, Outputs}
use forward_epics_to_kafka.Tests.Schemas.{alarm_schema, measured, no_errors}

-- Paths to two brokers.
abbrev path_of : ℕ → OutputPath
path_of p =
    if p == 0
    then record { creator = f142 0; broker = 0 }
    else record { creator = tdc_time; broker = 1 }

-- librdkafka accepts the first message and has no room for the second.
abbrev env : Environment ℕ
env = record {
  schema = alarm_schema;
  message_size = λ m. 100;
  reply = λ n. if n == 0 then no_error else queue_full;
  served = λ n. [];
  path_of = path_of;
}

abbrev update : Update ℕ
update = record { pv = measured; structure = chopper ((12, 5) ∷ []) }

abbrev two_paths : ℕ → List ℕ
two_paths i = 0 ∷ 1 ∷ []

abbrev start : Outputs ℕ
start = record {
  converters = record { stats = λ c. no_errors; sequence_number = 7 };
  producers = λ b. new_producer;
  totals = record { messages = 0; bytes = 0 };
  attempts = 0;
  log = [];
}

abbrev empty_heap : Heap (Update ℕ)
empty_heap = record { next = 0; packet = λ _. none; transit = λ _. 0 }

abbrev worker :
    WorkerState (List ℕ) (Update ℕ) (Shared (List (Option (Update ℕ))) (Option (Outputs ℕ)))
worker = record {
  queue = [];
  heap = empty_heap;
  world = record { buffers = λ i. some update ∷ []; sid = 0; rest = some start };
}
