-- ===== src/Forwarder/Frame.antt =====
-- What the steps of a mapping leave alone.
use forward_epics_to_kafka.Base.{
  ℕ, ◌<◌, ◌≡◌, ◌≢◌, refl, ap, String, none, List, [], ◌∷◌, map, find_if, All, Distinct, Result, ok,
  err, >>>-keeps, arith, eq_iff, str_eq, ◌==◌, inl, inr, Bool-cases,
}
use forward_epics_to_kafka.ConfigParser.{ConverterSettings, StreamSettings}
use forward_epics_to_kafka.Uri.{Uri, of_string}
use forward_epics_to_kafka.Stream.{Stream, ConversionPath, add_converter}
use forward_epics_to_kafka.Streams.{has_name}
use forward_epics_to_kafka.Forwarder.{
  Setup, ForwarderState, on_stream, with_stream, create_topic, create_converter, create_named,
  obtain_converter, add_path, push_converter_to_stream, add_callbacks, on_client,
  set_status_producer, push_converters, put_path, add_path_to, put_producer, producer_to, set_up,
  set_up_converters, is_registered, create_topic_uri,
}

abbrev pub names : List Stream → List String
names ss = map (λ s. s.channel_name) ss

abbrev pub addresses : List Stream → List ℕ
addresses ss = map (λ s. s.client) ss

-- No two streams have the same channel or the same client, and the next client has a new address.
pub record WellFormed {C K : Type 0} (s : ForwarderState C K) : Type 0 where
  pub channels : Distinct (names s.streams.stream_pointers)
  pub clients : Distinct (addresses s.streams.stream_pointers)
  pub fresh : All (λ a. a < s.next_client) (addresses s.streams.stream_pointers)

pub not_found :
    (name : String) (ss : List Stream)
    → find_if (has_name name) ss ≡ none
    → All (λ n. name ≢ n) (names ss)
unfolding has_name
not_found name [] h = tt
not_found name (s ∷ ss) h = elim (Bool-cases (str_eq s.channel_name name)) [
  | inl e ↦ ground (arith, h, e)
  | inr e ↦ (
    grind (arith, eq_iff s.channel_name name, e),
    not_found name ss (let h' : find_if (has_name name) ss ≡ none = ground (arith, h, e) in h'),
  )
]

-- A stream keeps its channel and its client.
abbrev Renames : (Stream → Stream) → Type 0
Renames f = (s : Stream) → ((f s).channel_name ≡ s.channel_name) × ((f s).client ≡ s.client)

names-on_stream :
    (f : Stream → Stream) (a : ℕ) (ss : List Stream)
    → Renames f
    → (names (on_stream f a ss) ≡ names ss) × (addresses (on_stream f a ss) ≡ addresses ss)
names-on_stream f a [] h = (refl, refl)
names-on_stream f a (s ∷ ss) h =
    let (n, d) = names-on_stream f a ss h in
    elim (Bool-cases (s.client == a)) [
      | inl e ↦ rw e (rw ((h s).0, n) refl, rw ((h s).1, d) refl)
      | inr e ↦ rw e (ap (◌∷◌ s.channel_name) n, ap (◌∷◌ s.client) d)
    ]

module _ {C K : Type 0} where
  -- What `WellFormed` looks at.
  pub record Same (s s' : ForwarderState C K) : Type 0 where
    pub channels : names s'.streams.stream_pointers ≡ names s.streams.stream_pointers
    pub clients : addresses s'.streams.stream_pointers ≡ addresses s.streams.stream_pointers
    pub next : s'.next_client ≡ s.next_client
    pub flag : s'.flag ≡ s.flag

  pub WellFormed-Same : (s s' : ForwarderState C K) → Same s s' → WellFormed s → WellFormed s'
  WellFormed-Same s s' e w = record {
    channels = rw e.channels w.channels;
    clients = rw e.clients w.clients;
    fresh = rw (e.clients, e.next) w.fresh;
  }

  obtain_converter-streams :
      (c : ConverterSettings) (s : ForwarderState C K)
      → ((obtain_converter c s).1.streams ≡ s.streams)
        × ((obtain_converter c s).1.next_client ≡ s.next_client)
        × ((obtain_converter c s).1.flag ≡ s.flag)
  unfolding obtain_converter create_named create_converter
  obtain_converter-streams c s = ground arith

add_converter-Renames : (p : ConversionPath) → Renames (λ x. (add_converter p x).0)
unfolding add_converter
add_converter-Renames p s = ground arith

-- What depends only on the channels, the clients and the next address is kept by all that follows the
-- creation of the stream.
module _ {C K : Type 0} (setup : Setup C K) (P : ForwarderState C K → Type 0)
    (transfer : (s s' : ForwarderState C K) → Same s s' → P s → P s') where
  with_stream-keeps :
      (f : Stream → Stream) (a : ℕ) (s : ForwarderState C K)
      → Renames f
      → P s
      → P (with_stream f a s)
  with_stream-keeps f a s h w =
      let (n, d) = names-on_stream f a s.streams.stream_pointers h in
      transfer s (with_stream f a s)
        (record { channels = n; clients = d; next = refl; flag = refl }) w

  keeps_streams :
      (s s' : ForwarderState C K)
      → (s'.streams ≡ s.streams) × (s'.next_client ≡ s.next_client) × (s'.flag ≡ s.flag)
      → P s
      → P s'
  keeps_streams s s' e w =
      transfer s s'
        (record {
          channels = ap (λ x. names x.stream_pointers) e.0;
          clients = ap (λ x. addresses x.stream_pointers) e.0;
          next = e.1;
          flag = e.2;
        })
        w

  create_topic-keeps : (u : Uri) (s : ForwarderState C K) → P s → P (create_topic setup u s).0
  create_topic-keeps u s w = keeps_streams s _ (refl, refl, refl) w

  add_path-keeps :
      (c : ConverterSettings) (u : Uri) (a : ℕ) (s : ForwarderState C K)
      → P s
      → P (add_path setup c u a s).0
  unfolding add_path
  add_path-keeps c u a s w =
      let (k, s') = obtain_converter c s in
      >>>-keeps P (create_topic setup u) (put_path setup k a) (create_topic-keeps u)
        (λ t s2 w2.
          with_stream-keeps
            (λ x. (add_converter (record { converter = k; broker = t.broker; topic = t.name }) x).0)
            a s2
            (add_converter-Renames (record { converter = k; broker = t.broker; topic = t.name }))
            w2)
        s' (keeps_streams s s' (obtain_converter-streams c s) w)

  add_path_to-keeps :
      (a : ℕ) (c : ConverterSettings) (r : Result Uri) (s : ForwarderState C K)
      → P s
      → P (add_path_to setup a c r s).0
  add_path_to-keeps a c (err e) s w = w
  add_path_to-keeps a c (ok u) s w = add_path-keeps c u a s w

  push_converter_to_stream-keeps :
      (a : ℕ) (c : ConverterSettings) (s : ForwarderState C K)
      → P s
      → P (push_converter_to_stream setup a c s).0
  unfolding push_converter_to_stream
  push_converter_to_stream-keeps a c s w = elim (Bool-cases (is_registered c.schema)) [
    | inl e ↦
        rw (e, push_converter_to_stream) (add_path_to-keeps a c (create_topic_uri setup c) s w)
    | inr e ↦ rw (e, push_converter_to_stream) w
  ]

  push_converters-keeps :
      (a : ℕ) (cs : List ConverterSettings) (s : ForwarderState C K)
      → P s
      → P (push_converters setup a cs s).0
  unfolding push_converters
  push_converters-keeps a [] s w = w
  push_converters-keeps a (c ∷ cs) s w =
      >>>-keeps P (push_converter_to_stream setup a c) (λ _. push_converters setup a cs)
        (push_converter_to_stream-keeps a c) (λ _ s2 w2. push_converters-keeps a cs s2 w2) s w

  producer_to-keeps :
      (a : ℕ) (r : Result Uri) (s : ForwarderState C K) → P s → P (producer_to setup a r s).0
  producer_to-keeps a (err e) s w = w
  producer_to-keeps a (ok u) s w =
      >>>-keeps P (create_topic setup u) (put_producer setup a) (create_topic-keeps u)
        (λ t s2 w2.
          transfer s2 _ (record { channels = refl; clients = refl; next = refl; flag = refl }) w2)
        s w

  set_status_producer-keeps :
      (a : ℕ) (cs : List ConverterSettings) (s : ForwarderState C K)
      → P s
      → P (set_status_producer setup a cs s).0
  unfolding set_status_producer
  set_status_producer-keeps a [] s w = w
  set_status_producer-keeps a (c ∷ cs) s w = producer_to-keeps a (of_string setup.uri c.topic) s w

  pub set_up-keeps :
      (info : StreamSettings) (a : ℕ) (s : ForwarderState C K) → P s → P (set_up setup info a s).0
  set_up-keeps info a s w =
      >>>-keeps P (set_status_producer setup a info.converters)
        (set_up_converters setup a info.converters) (set_status_producer-keeps a info.converters)
        (λ _ s2 w2.
          push_converters-keeps a info.converters
            (on_client (setup.api.set_service_id setup.service_id) a s2)
            (transfer s2 _ (record { channels = refl; clients = refl; next = refl; flag = refl })
              w2))
        (add_callbacks setup a s) (keeps_streams s _ (refl, refl, refl) w)
