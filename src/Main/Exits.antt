-- ===== src/Main/Exits.antt =====
-- The code with which the process ends, or how else it does.
use forward_epics_to_kafka.Base.{
  ℕ, ◌≡◌, refl, ◌∙◌, ap, String, true, false, ◌||◌, none, some, List, ◌∷◌, ◌++◌, ok, err,
  runtime_error, if◌then◌else◌,
}
use forward_epics_to_kafka.MainOpt.{MainOpt, OptLibrary, OptionCall, Parsed, success, parse_opt}
use forward_epics_to_kafka.MainLoop.{
  MainState, Environment, Round, construct, destroy, start_threads, is_timer, status_topic,
  loop_behind, forward, conversion_workers_clear, converters_clear,
}
use forward_epics_to_kafka.Main.{
  exit_code, thread_not_joined, returned, return_code, run_forwarder, main,
}
use forward_epics_to_kafka.MainLoop.Startup.{construct-Ready}
use forward_epics_to_kafka.MainLoop.Shutdown.{all_quiet, quiet, forward-Stopped}

module _ {C K : Type 0} (env : Environment C K) where
  return_code_joined :
      (n : ℕ) (m : MainState C K)
      → (m.pv_running ≡ false) × (m.fake_running ≡ false)
      → return_code env n m ≡ exit_code n
  unfolding destroy converters_clear conversion_workers_clear
  return_code_joined n m (p, f) = rw (p, f) refl

  -- With options that parse, a forwarder that can be constructed and a status topic that can be made,
  -- the process ends with code 0 after the first turn in which it is told to stop.
  pub main_exit :
      (lib : OptLibrary) (calls : List OptionCall) (end : Parsed) (o0 o : MainOpt) (rs : List Round)
      (r : Round) (qs : List Round) (m : MainState C K)
      → parse_opt lib calls end o0 ≡ ok (success, o)
      → construct env o ≡ ok m
      → status_topic env o m ≡ ok tt
      → all_quiet env rs ≡ true
      → quiet env r ≡ false
      → main env (parse_opt lib calls end o0) (rs ++ r ∷ qs) ≡ some (exit_code 0)
  unfolding main
  main_exit lib calls end o0 o rs r qs m p c t h q =
      let rounds = rs ++ r ∷ qs in
      let (m', e, s) = forward-Stopped env o rs r qs m (construct-Ready env o m c).runs t h q in
      ap (λ x. main env x rounds) p
      ∙ ap (run_forwarder env o rounds) c
      ∙ ap (λ x. elim x [ none ↦ none | some y ↦ some (returned env y) ]) e
      ∙ ap some (return_code_joined 0 m' s.timers)

  -- Where the status topic is refused, the process does not end with code 1, as the handler means it
  -- to, if there is a timer: its thread runs, and it is destroyed without being joined.
  pub main_status_topic_refused :
      (lib : OptLibrary) (calls : List OptionCall) (end : Parsed) (o0 o : MainOpt)
      (rounds : List Round) (m : MainState C K) (broker : String)
      → parse_opt lib calls end o0 ≡ ok (success, o)
      → construct env o ≡ ok m
      → m.status_producer ≡ some broker
      → env.makes_topic broker o.status_report_uri.topic ≡ false
      → main env (parse_opt lib calls end o0) rounds
        ≡ some (
            if is_timer env m.forwarder.pv_update_timer || is_timer env m.forwarder.fake_pv_timer
            then thread_not_joined
            else exit_code 1)
  unfolding main forward start_threads destroy converters_clear conversion_workers_clear
  main_status_topic_refused lib calls end o0 o rounds m broker p c s t =
      let m' = start_threads env m in
      let refused : status_topic env o m' ≡ err (runtime_error "Can not create Kafka topic") =
        rw s (rw t refl) in
      ap (λ x. main env x rounds) p
      ∙ ap (run_forwarder env o rounds) c
      ∙ ap
          (λ x. elim (loop_behind env x rounds m') [ none ↦ none | some y ↦ some (returned env y) ])
          refused
