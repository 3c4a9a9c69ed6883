-- ===== src/Forwarder/Retry.antt =====
-- What a mapping leaves behind, whether or not it ends with an exception.
use forward_epics_to_kafka.Base.{
  ◌≡◌, ◌≢◌, refl, ◌∙◌, String, none, some, List, [], ◌∷◌, ◌++◌, find_if, All, err,
  mapping_add_exception, inl, inr, Option-cases, subst,
}
use mathlib.Core.List.{map-append}
use forward_epics_to_kafka.ConfigParser.{StreamSettings}
use forward_epics_to_kafka.Stream.{Stream}
use forward_epics_to_kafka.Streams.{has_name, get_stream_by_channel_name, add}
use forward_epics_to_kafka.Forwarder.{
  Setup, ForwarderState, new_stream, make_client, add_stream, map_stream, add_mapping, is_some,
}
use forward_epics_to_kafka.Forwarder.Frame.{names, not_found, set_up-keeps}
use forward_epics_to_kafka.Forwarder.Mappings.{add_mapping_again}

last_excluded : (name : String) (ns : List String) → All (λ n. name ≢ n) (ns ++ name ∷ []) → ⊥
last_excluded name [] h = h.0 refl
last_excluded name (n ∷ ns) h = last_excluded name ns h.1

found :
    (name : String) (ns : List String) (ss : List Stream)
    → names ss ≡ ns ++ name ∷ []
    → (x : Stream) × (find_if (has_name name) ss ≡ some x)
found name ns ss e = elim (Option-cases (find_if (has_name name) ss)) [
  | inr r ↦ r
  | inl n ↦ elim (last_excluded name ns (subst (All (λ n. name ≢ n)) e (not_found name ss n))) [ ]
]

module _ {C K : Type 0} (setup : Setup C K) where
  -- A mapping of a new channel for which a client is made leaves one stream more, whether or not its
  -- converters could be added. Where it ended with an exception it cannot be tried again: the channel
  -- has its stream, and the second mapping fails whatever its converters are.
  pub add_mapping_retry :
      (info info' : StreamSettings) (s : ForwarderState C K) (c : C)
      → get_stream_by_channel_name info.name s.streams ≡ none
      → make_client setup (is_some s.fake_pv_timer) info ≡ some c
      → info'.name ≡ info.name
      → let s' = (add_mapping setup info s).0 in
        (names s'.streams.stream_pointers ≡ names s.streams.stream_pointers ++ info.name ∷ [])
        × (add_mapping setup info' s' ≡ (s', err (mapping_add_exception "Cannot add stream")))
  unfolding get_stream_by_channel_name add_mapping map_stream add_stream add
  add_mapping_retry info info' s c e m same =
      let ss = s.streams.stream_pointers in
      let left : names (add_mapping setup info s).0.streams.stream_pointers
          ≡ names ss ++ info.name ∷ [] =
        rw (e, add_stream)
          (rw (m, add_stream)
            (set_up-keeps setup (λ t. names t.streams.stream_pointers ≡ names ss ++ info.name ∷ [])
              (λ t t' k p. k.channels ∙ p) info s.next_client (new_stream info c s)
              (map-append {B = String} (λ x. x.channel_name) ss _))) in
      let (x, f) = found info.name (names ss) _ left in
      (left, add_mapping_again setup info' _ x (rw same f))
