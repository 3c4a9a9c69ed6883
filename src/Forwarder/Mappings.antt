-- ===== src/Forwarder/Mappings.antt =====
-- What the addition of a mapping keeps, and what a second one with the same channel does.
use forward_epics_to_kafka.Base.{
  ℕ, suc, ◌<◌, ◌≡◌, refl, ◌∙◌, String, Bool, Option, none, some, [], ◌∷◌, All-append,
  Distinct-append, err, mapping_add_exception, >>>-keeps, arith, inl, inr, Option-cases,
}
use mathlib.Core.List.{map-append}
use forward_epics_to_kafka.Stream.Fill.Batches.{All-implies}
use forward_epics_to_kafka.ConfigParser.{StreamSettings}
use forward_epics_to_kafka.Stream.{Stream}
use forward_epics_to_kafka.Streams.{get_stream_by_channel_name, add}
use forward_epics_to_kafka.Forwarder.{
  Setup, ForwarderState, new_stream, add_stream, map_stream, make_client, stream_of, set_up,
  is_some, rethrown, add_mapping, is_runtime_error,
}
use forward_epics_to_kafka.Forwarder.Frame.{
  names, addresses, WellFormed, WellFormed-Same, not_found, set_up-keeps,
}

module _ {C K : Type 0} where
  new_stream-WellFormed :
      (info : StreamSettings) (c : C) (s : ForwarderState C K)
      → get_stream_by_channel_name info.name s.streams ≡ none
      → WellFormed s
      → WellFormed (new_stream info c s)
  unfolding get_stream_by_channel_name add
  new_stream-WellFormed info c s e w =
      let ss = s.streams.stream_pointers in
      record {
        channels =
            rw (map-append {B = String} (λ x. x.channel_name) ss _)
              (Distinct-append (names ss) info.name w.channels (not_found info.name ss e));
        clients = rw (map-append {B = ℕ} (λ x. x.client) ss _) (
            Distinct-append (addresses ss) s.next_client w.clients
              (All-implies (addresses ss) (λ a lt. omega arith) w.fresh));
        fresh = rw (map-append {B = ℕ} (λ x. x.client) ss _) (
            All-append (λ a. a < suc s.next_client) (addresses ss) (s.next_client ∷ [])
              (All-implies (addresses ss) (λ a lt. omega arith) w.fresh) (omega arith, tt));
      }

module _ {C K : Type 0} (setup : Setup C K) where
  stream_of-WellFormed :
      (info : StreamSettings) (o : Option C) (s : ForwarderState C K)
      → get_stream_by_channel_name info.name s.streams ≡ none
      → WellFormed s
      → WellFormed (stream_of setup info o s).0
  stream_of-WellFormed info none s e w = w
  stream_of-WellFormed info (some c) s e w = new_stream-WellFormed info c s e w

  add_stream-WellFormed :
      (random : Bool) (info : StreamSettings) (s : ForwarderState C K)
      → WellFormed s
      → WellFormed (add_stream setup random info s).0
  unfolding add_stream
  add_stream-WellFormed random info s w =
      elim (Option-cases (get_stream_by_channel_name info.name s.streams)) [
        | inr (x, e) ↦ rw (e, add_stream) w
        | inl e ↦
            rw (e, add_stream) (stream_of-WellFormed info (make_client setup random info) s e w)
      ]

  add_stream_again :
      (random : Bool) (info : StreamSettings) (s : ForwarderState C K) (x : Stream)
      → get_stream_by_channel_name info.name s.streams ≡ some x
      → add_stream setup random info s ≡ (s, err (mapping_add_exception "Stream already exists"))
  unfolding add_stream
  add_stream_again random info s x e = rw (e, add_stream) refl

  -- A mapping is added, or fails to be at any point, without a channel mapped twice and without two
  -- streams on one client.
  pub add_mapping-WellFormed :
      (info : StreamSettings) (s : ForwarderState C K)
      → WellFormed s
      → WellFormed (add_mapping setup info s).0
  unfolding add_mapping map_stream
  add_mapping-WellFormed info s w =
      >>>-keeps WellFormed (add_stream setup (is_some s.fake_pv_timer) info) (set_up setup info)
        (add_stream-WellFormed (is_some s.fake_pv_timer) info)
        (set_up-keeps setup WellFormed WellFormed-Same info) s w

  stream_of_flag :
      (info : StreamSettings) (o : Option C) (s : ForwarderState C K)
      → (stream_of setup info o s).0.flag ≡ s.flag
  stream_of_flag info none s = refl
  stream_of_flag info (some c) s = refl

  add_stream_flag :
      (random : Bool) (info : StreamSettings) (s : ForwarderState C K)
      → (add_stream setup random info s).0.flag ≡ s.flag
  unfolding add_stream
  add_stream_flag random info s =
      elim (Option-cases (get_stream_by_channel_name info.name s.streams)) [
        | inr (x, e) ↦ rw (e, add_stream) refl
        | inl e ↦ rw (e, add_stream) (stream_of_flag info (make_client setup random info) s)
      ]

  -- The flag of the main loop stays.
  pub add_mapping_flag :
      (info : StreamSettings) (s : ForwarderState C K) → (add_mapping setup info s).0.flag ≡ s.flag
  unfolding add_mapping map_stream
  add_mapping_flag info s =
      >>>-keeps (λ t. t.flag ≡ s.flag) (add_stream setup (is_some s.fake_pv_timer) info)
        (set_up setup info) (λ t p. add_stream_flag (is_some s.fake_pv_timer) info t ∙ p)
        (set_up-keeps setup (λ t. t.flag ≡ s.flag) (λ t t' k p. k.flag ∙ p) info) s refl

  -- A channel that has a stream cannot be mapped again: the exception is "Cannot add stream", whatever
  -- the settings say, and nothing at all changes.
  pub add_mapping_again :
      (info : StreamSettings) (s : ForwarderState C K) (x : Stream)
      → get_stream_by_channel_name info.name s.streams ≡ some x
      → add_mapping setup info s ≡ (s, err (mapping_add_exception "Cannot add stream"))
  unfolding add_mapping map_stream rethrown is_runtime_error
  add_mapping_again info s x e =
      rw (add_stream_again (is_some s.fake_pv_timer) info s x e, add_mapping, map_stream) refl
