-- ===== src/MainLoop/Mapped.antt =====
-- Which of the configured channels have a stream when a forwarder was constructed.
use forward_epics_to_kafka.Base.{
  ℕ, ◌≡◌, ◌⊎◌, inl, inr, refl, sym, subst, String, Bool, true, false, Option, none, some, List, [],
  ◌∷◌, ◌++◌, find_if, All, >>>-keeps, arith, eq_iff, str_eq, Bool-cases, Option-cases,
}
use mathlib.Core.List.{map-append}
use forward_epics_to_kafka.ConfigParser.{StreamSettings}
use forward_epics_to_kafka.Stream.{Stream}
use forward_epics_to_kafka.Streams.{has_name, get_stream_by_channel_name, add}
use forward_epics_to_kafka.Forwarder.{
  Setup, ForwarderState, new_stream, make_client, stream_of, add_stream, map_stream, add_mapping,
  is_some, set_up,
}
use forward_epics_to_kafka.Forwarder.Retry.{add_mapping_retry}
use forward_epics_to_kafka.Forwarder.Frame.{names, set_up-keeps}
use forward_epics_to_kafka.MainLoop.{Environment, add_streams}

-- A name is among others.
abbrev pub Has : String → List String → Type 0
Has n [] = ⊥
Has n (m ∷ ms) = (m ≡ n) ⊎ Has n ms

Has-left : (n : String) (ms ks : List String) → Has n ms → Has n (ms ++ ks)
Has-left n [] ks h = absurd h
Has-left n (m ∷ ms) ks (inl e) = inl e
Has-left n (m ∷ ms) ks (inr h) = inr (Has-left n ms ks h)

Has-last : (n : String) (ms : List String) → Has n (ms ++ n ∷ [])
Has-last n [] = inl refl
Has-last n (m ∷ ms) = inr (Has-last n ms)

found-Has :
    (n : String) (ss : List Stream) (x : Stream)
    → find_if (has_name n) ss ≡ some x
    → Has n (names ss)
unfolding has_name
found-Has n [] x e = ground (arith, e)
found-Has n (s ∷ ss) x e = elim (Bool-cases (str_eq s.channel_name n)) [
  | inl same ↦ inl (grind (arith, eq_iff s.channel_name n, same))
  | inr other ↦ inr (
      found-Has n ss x (let e' : find_if (has_name n) ss ≡ some x = ground (arith, e, other) in e'))
]

module _ {C K : Type 0} where
  abbrev pub HasStream : String → ForwarderState C K → Type 0
  HasStream n s = Has n (names s.streams.stream_pointers)

  names-new_stream :
      (info : StreamSettings) (c : C) (s : ForwarderState C K)
      → names (new_stream info c s).streams.stream_pointers
        ≡ names s.streams.stream_pointers ++ info.name ∷ []
  unfolding add
  names-new_stream info c s =
      map-append {B = String} (λ x. x.channel_name) s.streams.stream_pointers _

module _ {C K : Type 0} (setup : Setup C K) where
  stream_of-HasStream :
      (n : String) (info : StreamSettings) (o : Option C) (s : ForwarderState C K)
      → HasStream n s
      → HasStream n (stream_of setup info o s).0
  stream_of-HasStream n info none s h = h
  stream_of-HasStream n info (some c) s h =
      subst (Has n) (sym (names-new_stream info c s)) (Has-left n _ _ h)

  add_stream-HasStream :
      (n : String) (random : Bool) (info : StreamSettings) (s : ForwarderState C K)
      → HasStream n s
      → HasStream n (add_stream setup random info s).0
  unfolding add_stream
  add_stream-HasStream n random info s h =
      elim (Option-cases (get_stream_by_channel_name info.name s.streams)) [
        | inr (x, e) ↦ rw (e, add_stream) h
        | inl e ↦
            rw (e, add_stream) (stream_of-HasStream n info (make_client setup random info) s h)
      ]

  set_up-HasStream :
      (n : String) (info : StreamSettings) (a : ℕ) (s : ForwarderState C K)
      → HasStream n s
      → HasStream n (set_up setup info a s).0
  set_up-HasStream n info a s h =
      set_up-keeps setup (HasStream n) (λ t t' k p. subst (Has n) (sym k.channels) p) info a s h

  -- A stream that is there stays.
  add_mapping-HasStream :
      (n : String) (info : StreamSettings) (s : ForwarderState C K)
      → HasStream n s
      → HasStream n (add_mapping setup info s).0
  unfolding add_mapping map_stream
  add_mapping-HasStream n info s h =
      >>>-keeps (HasStream n) (add_stream setup (is_some s.fake_pv_timer) info) (set_up setup info)
        (add_stream-HasStream n (is_some s.fake_pv_timer) info) (set_up-HasStream n info) s h

  -- No client could be made, or the channel has a stream.
  abbrev pub Mapped : StreamSettings → ForwarderState C K → Type 0
  Mapped info s = (setup.new_monitor info.epics_protocol info.name ≡ none) ⊎ HasStream info.name s

  no_client :
      (random : Bool) (info : StreamSettings)
      → make_client setup random info ≡ none
      → setup.new_monitor info.epics_protocol info.name ≡ none
  unfolding make_client
  no_client true info e = ground (arith, e)
  no_client false info e = e

  add_mapping-Mapped :
      (info : StreamSettings) (s : ForwarderState C K) → Mapped info (add_mapping setup info s).0
  unfolding get_stream_by_channel_name
  add_mapping-Mapped info s = elim (Option-cases (get_stream_by_channel_name info.name s.streams)) [
    | inr (x, e) ↦
        inr (
          add_mapping-HasStream info.name info s
            (found-Has info.name s.streams.stream_pointers x e))
    | inl e ↦ elim (Option-cases (make_client setup (is_some s.fake_pv_timer) info)) [
      | inl m ↦ inl (no_client (is_some s.fake_pv_timer) info m)
      | inr (c, m) ↦
          let (left, _) = add_mapping_retry setup info info s c e m refl in
          inr (subst (Has info.name) (sym left) (Has-last info.name _))
    ]
  ]

module _ {C K : Type 0} (env : Environment C K) where
  add_streams-HasStream :
      (n : String) (is : List StreamSettings) (s : ForwarderState C K)
      → HasStream n s
      → HasStream n (add_streams env is s)
  unfolding add_streams
  add_streams-HasStream n [] s h = h
  add_streams-HasStream n (i ∷ is) s h =
      add_streams-HasStream n is (add_mapping env.setup i s).0
        (add_mapping-HasStream env.setup n i s h)

  Mapped-add_streams :
      (i : StreamSettings) (is : List StreamSettings) (s : ForwarderState C K)
      → Mapped env.setup i s
      → Mapped env.setup i (add_streams env is s)
  Mapped-add_streams i is s (inl e) = inl e
  Mapped-add_streams i is s (inr h) = inr (add_streams-HasStream i.name is s h)

  -- Whatever failed in between: each of the configured channels has a stream, unless no client could be
  -- made for it.
  pub add_streams-Mapped :
      (is : List StreamSettings) (s : ForwarderState C K)
      → All (λ i. Mapped env.setup i (add_streams env is s)) is
  unfolding add_streams
  add_streams-Mapped [] s = tt
  add_streams-Mapped (i ∷ is) s =
      let s' = (add_mapping env.setup i s).0 in
      (Mapped-add_streams i is s' (add_mapping-Mapped env.setup i s), add_streams-Mapped is s')
