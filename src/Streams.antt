-- ===== src/Streams.antt =====
-- src/Streams.h and src/Streams.cpp: the streams in the order in which they were added, with the
-- store of the EPICS clients. The mutex makes each operation one step.
pub mod Stops
use forward_epics_to_kafka.Base.{
  ℕ, String, Bool, true, false, not, Option, none, some, List, [], ◌∷◌, ◌++◌, keep, find_if,
  get_elem?, map, length, str_eq, if◌then◌else◌,
}
use forward_epics_to_kafka.Base.Int.{ℤ, pos, ltb_ℤ}
use forward_epics_to_kafka.Json.{Json, Items, nil, cons, array}
use forward_epics_to_kafka.Stream.{ClientApi, Stream, get_status_json}
use forward_epics_to_kafka.Stream.Fill.{update_at}

pub record Streams (C : Type 0) : Type 0 where
  pub stream_pointers : List Stream
  pub clients : ℕ → C

unfoldable pub has_name : String → Stream → Bool
has_name name s = str_eq s.channel_name name

unfoldable pub size : {C : Type 0} → Streams C → ℕ
size st = length st.stream_pointers

unfoldable pub back : {C : Type 0} → Streams C → Option Stream
back st = last_of st.stream_pointers
  where
    last_of : List Stream → Option Stream
    last_of [] = none
    last_of (s ∷ []) = some s
    last_of (s ∷ t ∷ ss) = last_of (t ∷ ss)

-- `operator[]`, which throws where there is no such stream.
unfoldable pub at : {C : Type 0} → ℕ → Streams C → Option Stream
at i st = get_elem? st.stream_pointers i

unfoldable pub add : {C : Type 0} → Stream → Streams C → Streams C
add s st = record st { stream_pointers = st.stream_pointers ++ s ∷ [] }

unfoldable pub get_stream_by_channel_name : {C : Type 0} → String → Streams C → Option Stream
unfolding has_name
get_stream_by_channel_name name st = find_if (has_name name) st.stream_pointers

module _ {C : Type 0} (api : ClientApi C) where
  -- `Stream::stop` of each stream, by the addresses of their clients.
  abbrev pub stop_each : List ℕ → (ℕ → C) → ℕ → C
  stop_each [] clients = clients
  stop_each (a ∷ as') clients = stop_each as' (update_at clients a (api.stop (clients a)))

  -- A stream that leaves the list is destroyed, which stops its client.
  unfoldable pub stop_channel : String → Streams C → Streams C
  unfolding has_name
  stop_channel name st = record {
    stream_pointers = keep (λ s. not (has_name name s)) st.stream_pointers;
    clients = stop_each (map (λ s. s.client) (keep (has_name name) st.stream_pointers)) st.clients;
  }

  -- Each stream is stopped, and once more when it is destroyed.
  unfoldable pub clear_streams : Streams C → Streams C
  clear_streams st =
      let addresses = map (λ s. s.client) st.stream_pointers in
      record {
        stream_pointers = [];
        clients = stop_each addresses (stop_each addresses st.clients);
      }

  abbrev pub failed : (ℕ → C) → Stream → Bool
  failed clients s = ltb_ℤ (api.status (clients s.client)) (pos 0)

  -- The pass of `std::remove_if`, whose predicate stops the streams that it removes: what stays, the
  -- clients of what is removed, and the clients after it.
  unfoldable pub remove_failed : List Stream → (ℕ → C) → List Stream × List ℕ × (ℕ → C)
  remove_failed [] clients = ([], [], clients)
  remove_failed (s ∷ ss) clients = elim (failed clients s) [
    | true ↦
        let rest = remove_failed ss (update_at clients s.client (api.stop (clients s.client))) in
        (rest.0, s.client ∷ rest.1, rest.2)
    | false ↦ let rest = remove_failed ss clients in (s ∷ rest.0, rest.1, rest.2)
  ]

  unfoldable pub check_stream_status : Streams C → Streams C
  unfolding remove_failed
  check_stream_status st =
      let (left, gone, clients) = remove_failed st.stream_pointers st.clients in
      record { stream_pointers = left; clients = stop_each gone clients }

  unfoldable pub get_stream_statuses : (ℕ → String) → Streams C → Json
  get_stream_statuses show st = array (each st.stream_pointers)
    where
      each : List Stream → Items
      each [] = nil
      each (s ∷ ss) = cons (get_status_json api show st.clients s) (each ss)
