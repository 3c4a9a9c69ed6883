-- ===== src/Delivery/Rounds.antt =====
-- A round of a worker down to librdkafka.
use forward_epics_to_kafka.Base.{ℕ, ◌≡◌, Option, some, List}
use forward_epics_to_kafka.Queue.{QueueApi}
use forward_epics_to_kafka.F142.{create as create_log_data}
use forward_epics_to_kafka.Pipeline.{State}
use forward_epics_to_kafka.Pipeline.Refines.{round}
use forward_epics_to_kafka.Delivery.{
  Update, Outputs, Environment, emit_update, converted, Delivered,
}

module _ {V : Type 0} (env : Environment V) where
  -- All that the updates become is delivered, and the converters are left as `converted` says.
  abbrev Ends : List (ℕ × Update V) → Outputs V → Option (Outputs V) → Type 0
  Ends us w r =
      (w' : Outputs V) × (r ≡ some w')
      × Delivered env (converted env us w.converters).0 w w'
      × (w'.converters ≡ (converted env us w.converters).1)

  module _ {UQ PQ : Type 0} (updates : QueueApi UQ (Option (Update V))) (packets : QueueApi PQ ℕ)
      (size : ℕ) (paths : ℕ → List ℕ) where
    -- What the streams hand over in a round, each update once for each of its paths.
    abbrev pub taken_in :
        ℕ → State updates packets size paths (emit_update env) → List (ℕ × Update V)
    taken_in max_size s =
        let t =
          round updates packets size paths (emit_update env) max_size s.world.sid
            (λ j. updates.contents (s.world.buffers j)) in
        t.state.taken
