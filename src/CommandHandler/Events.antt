-- ===== src/CommandHandler/Events.antt =====
-- What every event keeps, and how the events stop the main loop.
use forward_epics_to_kafka.Base.{
  ℕ, arith, ◌||◌, ◌/◌, ◌%◌, ◌==◌, ◌<◌, ◌≡◌, refl, sym, ap, ◌∙◌, String, Bool, true, false, not,
  List, [], ◌∷◌, ◌++◌, keep, Distinct-keep, All-keep, Result, ok, err, >>>-keeps, inl, inr,
  Option-cases,
}
use forward_epics_to_kafka.Json.{Json, find_string}
use forward_epics_to_kafka.ConfigParser.{
  CommandType, stop_channel, stop_all, exit, unknown, ConfigSettings, StreamSettings, find_command,
}
use forward_epics_to_kafka.ConfigParser.{add as add_command}
use forward_epics_to_kafka.Stream.{Stream}
use forward_epics_to_kafka.Streams.{has_name, clear_streams, failed}
use forward_epics_to_kafka.Streams.{stop_channel as stop_channel_of}
use forward_epics_to_kafka.Streams.Stops.{check_stream_status_lem}
use forward_epics_to_kafka.Forwarder.{Setup, ForwarderState, add_mapping}
use forward_epics_to_kafka.Forwarder.Flag.{
  ForwardingRunState, stop, stop_due_to_signal, raise_forwarding_flag, raise_all, raise_all-Bits,
  any_stop, any_signal, stop_forwarding, stop_forwarding_due_to_signal,
}
use forward_epics_to_kafka.Forwarder.Frame.{names, addresses, WellFormed, WellFormed-Same}
use forward_epics_to_kafka.Forwarder.Mappings.{add_mapping-WellFormed, add_mapping_flag}
use forward_epics_to_kafka.CommandHandler.{
  JsonLibrary, add_mappings, settings_of, add_settings, handle_command_add,
  handle_command_stop_channel, handle_command_stop_all, handle_command_exit, handle, handle_command,
  on_parsed, on_message, report_status, Event, message, status_report, signal, event, events,
}

module _ {C K : Type 0} where
  -- Some of the streams are left, in order.
  kept-WellFormed :
      (p : Stream → Bool) (clients : ℕ → C) (s : ForwarderState C K)
      → WellFormed s
      → WellFormed (record s {
        streams = record { stream_pointers = keep p s.streams.stream_pointers; clients = clients };
      })
  kept-WellFormed p clients s w =
      let ss = s.streams.stream_pointers in
      record {
        channels = Distinct-keep (λ x. x.channel_name) p ss w.channels;
        clients = Distinct-keep (λ x. x.client) p ss w.clients;
        fresh = All-keep (λ x. x.client) p (λ a. a < s.next_client) ss w.fresh;
      }

  flag-WellFormed :
      (f : ℕ) (s : ForwarderState C K) → WellFormed s → WellFormed (record s { flag = f })
  flag-WellFormed f s w = record { channels = w.channels; clients = w.clients; fresh = w.fresh }

any_stop-append :
    (rs qs : List ForwardingRunState) → any_stop (rs ++ qs) ≡ (any_stop rs || any_stop qs)
any_stop-append [] qs = refl
any_stop-append (r ∷ rs) qs = ground (arith, any_stop-append rs qs)

any_signal-append :
    (rs qs : List ForwardingRunState) → any_signal (rs ++ qs) ≡ (any_signal rs || any_signal qs)
any_signal-append [] qs = refl
any_signal-append (r ∷ rs) qs = ground (arith, any_signal-append rs qs)

module _ {C K : Type 0} (setup : Setup C K) (json : JsonLibrary) (auto_name : ℕ → String) where
  add_mappings-keeps :
      (P : ForwarderState C K → Type 0)
      → ((i : StreamSettings) (s : ForwarderState C K) → P s → P (add_mapping setup i s).0)
      → (is : List StreamSettings) (s : ForwarderState C K) → P s
      → P (add_mappings setup json auto_name is s).0
  unfolding add_mappings
  add_mappings-keeps P h [] s p = p
  add_mappings-keeps P h (i ∷ is) s p =
      >>>-keeps P (add_mapping setup i) (λ _. add_mappings setup json auto_name is) (h i)
        (λ _ s2 p2. add_mappings-keeps P h is s2 p2) s p

  add_settings-keeps :
      (P : ForwarderState C K → Type 0)
      → ((i : StreamSettings) (s : ForwarderState C K) → P s → P (add_mapping setup i s).0)
      → (r : Result ConfigSettings) (s : ForwarderState C K) → P s
      → P (add_settings setup json auto_name r s).0
  add_settings-keeps P h (err e) s p = p
  add_settings-keeps P h (ok c) s p = add_mappings-keeps P h c.streams_info s p

  stop_channel-WellFormed :
      (msg : Json) (s : ForwarderState C K)
      → WellFormed s
      → WellFormed (handle_command_stop_channel setup json auto_name msg s).0
  unfolding handle_command_stop_channel stop_channel_of
  stop_channel-WellFormed msg s w = elim (Option-cases (find_string "channel" msg)) [
    | inl e ↦ rw (e, handle_command_stop_channel) w
    | inr (name, e) ↦
        rw (e, handle_command_stop_channel) (kept-WellFormed (λ x. not (has_name name x)) _ s w)
  ]

  handle-WellFormed :
      (c : CommandType) (msg : Json) (s : ForwarderState C K)
      → WellFormed s
      → WellFormed (handle setup json auto_name c msg s).0
  unfolding handle_command_add handle_command_stop_all handle_command_exit clear_streams
  handle-WellFormed add_command msg s w =
      add_settings-keeps WellFormed (add_mapping-WellFormed setup)
        (settings_of setup json auto_name msg) s w
  handle-WellFormed stop_channel msg s w = stop_channel-WellFormed msg s w
  handle-WellFormed stop_all msg s w = record { channels = tt; clients = tt; fresh = tt }
  handle-WellFormed exit msg s w = flag-WellFormed _ s w
  handle-WellFormed unknown msg s w = w

  on_parsed-WellFormed :
      (r : Result Json) (s : ForwarderState C K)
      → WellFormed s
      → WellFormed (on_parsed setup json auto_name r s)
  unfolding handle_command
  on_parsed-WellFormed (err e) s w = w
  on_parsed-WellFormed (ok msg) s w = handle-WellFormed (find_command msg) msg s w

  report_status-WellFormed :
      (given : Bool) (s : ForwarderState C K)
      → WellFormed s
      → WellFormed (report_status setup json auto_name given s)
  unfolding report_status
  report_status-WellFormed false s w = w
  report_status-WellFormed true s w =
      let (e, _) = check_stream_status_lem setup.api s.streams 0 w.clients in
      WellFormed-Same
        (record s {
          streams = record {
            stream_pointers =
                keep (λ x. not (failed setup.api s.streams.clients x)) s.streams.stream_pointers;
            clients = s.streams.clients;
          };
        })
        (report_status setup json auto_name true s)
        (record { channels = ap names e; clients = ap addresses e; next = refl; flag = refl })
        (kept-WellFormed _ _ s w)

  event-WellFormed :
      (e : Event) (s : ForwarderState C K)
      → WellFormed s
      → WellFormed (event setup json auto_name e s)
  unfolding event on_message
  event-WellFormed (message raw) s w = on_parsed-WellFormed (json.parse raw) s w
  event-WellFormed (status_report given) s w = report_status-WellFormed given s w
  event-WellFormed signal s w = flag-WellFormed _ s w

  -- Whatever messages come, well-formed or not, and wherever status reports and signals fall between
  -- them, no channel ever has two streams and no two streams share a client.
  pub events-WellFormed :
      (es : List Event) (s : ForwarderState C K)
      → WellFormed s
      → WellFormed (events setup json auto_name es s)
  unfolding events
  events-WellFormed [] s w = w
  events-WellFormed (e ∷ es) s w =
      events-WellFormed es (event setup json auto_name e s) (event-WellFormed e s w)

  abbrev pub raises_of : CommandType → List ForwardingRunState
  raises_of exit = stop ∷ []
  raises_of _ = []

  -- What an event raises: `exit` stops, and a signal stops due to a signal.
  abbrev pub raises : Event → List ForwardingRunState
  raises (message raw) = elim (json.parse raw) [
    | err e ↦ []
    | ok msg ↦ raises_of (find_command msg)
  ]
  raises (status_report given) = []
  raises signal = stop_due_to_signal ∷ []

  abbrev pub all_raises : List Event → List ForwardingRunState
  all_raises [] = []
  all_raises (e ∷ es) = raises e ++ all_raises es

  handle_flag :
      (c : CommandType) (msg : Json) (s : ForwarderState C K)
      → (handle setup json auto_name c msg s).0.flag ≡ raise_all (raises_of c) s.flag
  unfolding handle_command_add handle_command_stop_all handle_command_exit
      handle_command_stop_channel raise_all stop_forwarding
  handle_flag add_command msg s =
      add_settings-keeps (λ t. t.flag ≡ s.flag) (λ i t p. add_mapping_flag setup i t ∙ p)
        (settings_of setup json auto_name msg) s refl
  handle_flag stop_channel msg s = elim (Option-cases (find_string "channel" msg)) [
    | inl e ↦ rw (e, handle_command_stop_channel) refl
    | inr (name, e) ↦ rw (e, handle_command_stop_channel) refl
  ]
  handle_flag stop_all msg s = refl
  handle_flag exit msg s = refl
  handle_flag unknown msg s = refl

  on_parsed_flag :
      (r : Result Json) (s : ForwarderState C K)
      → (on_parsed setup json auto_name r s).flag
        ≡ raise_all (elim r [ err e ↦ [] | ok msg ↦ raises_of (find_command msg) ]) s.flag
  unfolding handle_command raise_all
  on_parsed_flag (err e) s = refl
  on_parsed_flag (ok msg) s = handle_flag (find_command msg) msg s

  event_flag :
      (e : Event) (s : ForwarderState C K)
      → (event setup json auto_name e s).flag ≡ raise_all (raises e) s.flag
  unfolding event on_message raise_all report_status stop_forwarding_due_to_signal
  event_flag (message raw) s = on_parsed_flag (json.parse raw) s
  event_flag (status_report false) s = refl
  event_flag (status_report true) s = refl
  event_flag signal s = refl

  raise_all-append :
      (rs qs : List ForwardingRunState) (f : ℕ)
      → raise_all (rs ++ qs) f ≡ raise_all qs (raise_all rs f)
  unfolding raise_all
  raise_all-append [] qs f = refl
  raise_all-append (r ∷ rs) qs f = raise_all-append rs qs (raise_forwarding_flag r f)

  pub raised_by_events :
      (es : List Event) (s : ForwarderState C K)
      → (events setup json auto_name es s).flag ≡ raise_all (all_raises es) s.flag
  unfolding events raise_all
  raised_by_events [] s = refl
  raised_by_events (e ∷ es) s =
      raised_by_events es (event setup json auto_name e s)
      ∙ ap (raise_all (all_raises es)) (event_flag e s)
      ∙ sym (raise_all-append (raises e) (all_raises es) s.flag)

  abbrev pub is_exit : Event → Bool
  is_exit (message raw) = elim (json.parse raw) [
    | err e ↦ false
    | ok msg ↦ elim (find_command msg) [ exit ↦ true | _ ↦ false ]
  ]
  is_exit e = false

  abbrev pub is_signal_event : Event → Bool
  is_signal_event signal = true
  is_signal_event e = false

  abbrev pub some_event : (Event → Bool) → List Event → Bool
  some_event p [] = false
  some_event p (e ∷ es) = p e || some_event p es

  raises_of_lem :
      (c : CommandType)
      → (any_stop (raises_of c) ≡ elim c [ exit ↦ true | _ ↦ false ])
        × (any_signal (raises_of c) ≡ false)
  raises_of_lem exit = (refl, refl)
  raises_of_lem add_command = (refl, refl)
  raises_of_lem stop_channel = (refl, refl)
  raises_of_lem stop_all = (refl, refl)
  raises_of_lem unknown = (refl, refl)

  raises_lem :
      (e : Event) → (any_stop (raises e) ≡ is_exit e) × (any_signal (raises e) ≡ is_signal_event e)
  raises_lem (message raw) = on_parse (json.parse raw)
    where
      on_parse :
          (r : Result Json)
          → (any_stop (elim r [ err e ↦ [] | ok msg ↦ raises_of (find_command msg) ]) ≡ elim r [
            | err e ↦ false
            | ok msg ↦ elim (find_command msg) [ exit ↦ true | _ ↦ false ]
          ])
            × (any_signal (elim r [ err e ↦ [] | ok msg ↦ raises_of (find_command msg) ]) ≡ false)
      on_parse (err e) = (refl, refl)
      on_parse (ok msg) = raises_of_lem (find_command msg)
  raises_lem (status_report given) = (refl, refl)
  raises_lem signal = (refl, refl)

  all_raises_lem :
      (es : List Event)
      → (any_stop (all_raises es) ≡ some_event is_exit es)
        × (any_signal (all_raises es) ≡ some_event is_signal_event es)
  all_raises_lem [] = (refl, refl)
  all_raises_lem (e ∷ es) =
      let (a, b) = raises_lem e in
      let (c, d) = all_raises_lem es in
      (
        any_stop-append (raises e) (all_raises es) ∙ ground (arith, a, c),
        any_signal-append (raises e) (all_raises es) ∙ ground (arith, b, d),
      )

  -- Only exit commands and signals touch the flag of the main loop, each by its own bit: after any events
  -- the lowest bit is set exactly if it was or an exit command came, the next one exactly if it was or
  -- a signal came, and the other bits are as they were.
  pub events_flag :
      (es : List Event) (s : ForwarderState C K)
      → let flag = (events setup json auto_name es s).flag in
        ((flag % 2 == 1) ≡ ((s.flag % 2 == 1) || some_event is_exit es))
        × (((flag / 2) % 2 == 1) ≡ (((s.flag / 2) % 2 == 1) || some_event is_signal_event es))
        × (flag / 4 ≡ s.flag / 4)
  events_flag es s =
      let (a, b) = all_raises_lem es in
      rw (raised_by_events es s) (rw⁻¹ a (rw⁻¹ b (raise_all-Bits (all_raises es) s.flag)))
