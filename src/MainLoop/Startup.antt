-- ===== src/MainLoop/Startup.antt =====
-- What a forwarder is when it was constructed.
use forward_epics_to_kafka.Base.{
  ℕ, ◌≡◌, refl, ◌∙◌, String, false, Option, List, [], ◌∷◌, length, length-replicate, Result, ok,
  err, subst, ◌>>=◌, arith,
}
use forward_epics_to_kafka.ConfigParser.{StreamSettings}
use forward_epics_to_kafka.Forwarder.{ForwarderState, add_mapping}
use forward_epics_to_kafka.Forwarder.Frame.{WellFormed}
use forward_epics_to_kafka.Forwarder.Mappings.{add_mapping-WellFormed, add_mapping_flag}
use forward_epics_to_kafka.MainOpt.{MainOpt}
use forward_epics_to_kafka.MainLoop.Mapped.{Mapped, add_streams-Mapped}
use forward_epics_to_kafka.Base.{All}
use forward_epics_to_kafka.MainLoop.{
  MainState, Environment, normal, add_streams, new_forwarder, create_config_listener,
  make_status_producer, construct, new_main,
}

module _ {C K : Type 0} (env : Environment C K) where
  add_streams-WellFormed :
      (is : List StreamSettings) (s : ForwarderState C K)
      → WellFormed s
      → WellFormed (add_streams env is s)
  unfolding add_streams
  add_streams-WellFormed [] s w = w
  add_streams-WellFormed (i ∷ is) s w =
      add_streams-WellFormed is (add_mapping env.setup i s).0
        (add_mapping-WellFormed env.setup i s w)

  add_streams_flag :
      (is : List StreamSettings) (s : ForwarderState C K) → (add_streams env is s).flag ≡ s.flag
  unfolding add_streams
  add_streams_flag [] s = refl
  add_streams_flag (i ∷ is) s =
      add_streams_flag is (add_mapping env.setup i s).0 ∙ add_mapping_flag env.setup i s

  -- Ready to run: as many workers as asked for, no thread started, and the flag at RUN.
  pub record Ready (o : MainOpt) (m : MainState C K) : Type 0 where
    pub streams : WellFormed m.forwarder
    pub mapped : All (λ i. Mapped env.setup i m.forwarder) o.streams_info
    pub workers : length m.conversion_workers ≡ o.conversion_threads
    pub runs : m.forwarder.flag ≡ 0
    pub no_timer : (m.pv_running ≡ false) × (m.fake_running ≡ false)
    pub status : m.forwarding_status ≡ normal

  new_main-Ready :
      (o : MainOpt) (partitions : List (ℕ × ℕ)) (producer : Option String)
      → Ready o (new_main env o partitions producer)
  unfolding new_forwarder
  new_main-Ready o partitions producer = record {
    streams =
        add_streams-WellFormed o.streams_info (new_forwarder env o)
          (record { channels = tt; clients = tt; fresh = tt });
    mapped = add_streams-Mapped env o.streams_info (new_forwarder env o);
    workers = length-replicate o.conversion_threads false;
    runs = add_streams_flag o.streams_info (new_forwarder env o);
    no_timer = (refl, refl);
    status = refl;
  }

  pub construct-Ready : (o : MainOpt) (m : MainState C K) → construct env o ≡ ok m → Ready o m
  unfolding construct
  construct-Ready o m e = made (create_config_listener env o) (make_status_producer env o) e
    where
      made :
          (r : Result (List (ℕ × ℕ))) (q : Result (Option String))
          → (r >>= λ partitions. q >>= λ producer. ok (new_main env o partitions producer)) ≡ ok m
          → Ready o m
      made (ok partitions) (ok producer) f =
          subst (Ready o) (ground (arith, f)) (new_main-Ready o partitions producer)
      made (ok partitions) (err x) f = ground (arith, f)
      made (err x) q f = ground (arith, f)
