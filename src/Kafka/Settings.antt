-- ===== src/Kafka/Settings.antt =====
-- BrokerSettings::apply of src/KafkaW/BrokerSettings.cpp and the constructor of
-- src/KafkaW/Producer.cpp. librdkafka's configuration object is an interface.
use forward_epics_to_kafka.Base.{
  ◌≡◌, ◌≢◌, refl, sym, ◌∙◌, subst, String, Bool, true, false, Option, some, List, [], ◌∷◌, map,
  Result, ok, err, runtime_error, Step, Void, if◌then◌else◌, All, Distinct, arith, inl, inr, ◌⊎◌,
  Bool-cases,
}

-- `RdKafka::Conf`: `set` says whether the value was taken (`CONF_OK`); objects for callbacks are set
-- apart.
pub record ConfApi (R : Type 0) : Type 0 where
  pub set : String → String → R → R × Bool
  pub set_callback : String → R → R
  pub get : String → R → Option String

-- What librdkafka documents of them.
pub record IsConf {R : Type 0} (api : ConfApi R) : Type 0 where
  pub taken :
      (k v : String) (r : R) → (api.set k v r).1 ≡ true → api.get k (api.set k v r).0 ≡ some v
  pub refused : (k v : String) (r : R) → (api.set k v r).1 ≡ false → (api.set k v r).0 ≡ r
  pub other : (k v l : String) (r : R) → k ≢ l → api.get l (api.set k v r).0 ≡ api.get l r
  pub callback : (k l : String) (r : R) → api.get l (api.set_callback k r) ≡ api.get l r

pub record BrokerSettings : Type 0 where
  pub address : String
  pub kafka_configuration : List (String × String)

module _ {R : Type 0} (api : ConfApi R) where
  -- The loop of `BrokerSettings::apply`.
  unfoldable pub apply : List (String × String) → Step R Void
  apply [] r = (r, ok tt)
  apply ((k, v) ∷ rest) r =
      let (r', taken) = api.set k v r in
      let more = apply rest r' in
      if taken then more else (r', err (runtime_error "Failure setting config"))

  abbrev broker_list : String
  broker_list = "metadata.broker.list"

  abbrev with_callbacks : R → R
  with_callbacks r = api.set_callback "event_cb" (api.set_callback "dr_cb" r)

  -- `apply` throws nothing but `std::runtime_error`.
  abbrev pub create_handle : (R → Bool) → String → R × Result Void → Result R
  create_handle creates address (r, err e) =
      err (runtime_error "Cannot create kafka handle due to configuration error")
  create_handle creates address (r, ok u) =
      let r' = (api.set broker_list address (with_callbacks r)).0 in
      if creates r' then ok r' else err (runtime_error "can not create Kafka handle")

  -- The constructor of `Producer`, with what the handle is made from; `creates` is
  -- `RdKafka::Producer::create`.
  unfoldable pub make_producer : (R → Bool) → BrokerSettings → R → Result R
  unfolding apply
  make_producer creates settings r =
      create_handle creates settings.address (apply settings.kafka_configuration r)

module _ {R : Type 0} (api : ConfApi R) (laws : IsConf api) where
  abbrev pub Holds : R → String × String → Type 0
  Holds r (k, v) = api.get k r ≡ some v

  apply_other :
      (rest : List (String × String)) (l : String) (r : R)
      → All (λ k. k ≢ l) (map (λ (k, v). k) rest)
      → api.get l (apply api rest r).0 ≡ api.get l r
  unfolding apply
  apply_other [] l r a = refl
  apply_other ((k, v) ∷ rest) l r a = elim (Bool-cases (api.set k v r).1) [
    | inl e ↦ rw e (apply_other rest l (api.set k v r).0 a.1 ∙ laws.other k v l r a.0)
    | inr e ↦ rw e (laws.other k v l r a.0)
  ]

  pub apply-Holds :
      (rest : List (String × String)) (r : R)
      → Distinct (map (λ (k, v). k) rest)
      → (apply api rest r).1 ≡ ok tt
      → All (Holds (apply api rest r).0) rest
  unfolding apply
  apply-Holds [] r d h = tt
  apply-Holds ((k, v) ∷ rest) r d h = elim (Bool-cases (api.set k v r).1) [
    | inl e ↦
        let h' : (apply api rest (api.set k v r).0).1 ≡ ok tt = ground (arith, h, e) in
        let same : apply api ((k, v) ∷ rest) r ≡ apply api rest (api.set k v r).0 =
          rw (e, apply) refl in
        subst (λ x. All (Holds x.0) ((k, v) ∷ rest)) (sym same)
          (
            apply_other rest k (api.set k v r).0 d.0 ∙ laws.taken k v r e,
            apply-Holds rest (api.set k v r).0 d.1 h',
          )
    | inr e ↦ ground (arith, h, e)
  ]

  -- What is set behind `apply`, with the list of brokers last.
  abbrev address_set : String → R → R
  address_set address r = (api.set "metadata.broker.list" address (with_callbacks api r)).0

  address_set_other :
      (address k : String) (r : R)
      → k ≢ "metadata.broker.list"
      → api.get k (address_set address r) ≡ api.get k r
  address_set_other address k r n =
      laws.other "metadata.broker.list" address k (with_callbacks api r) (λ e. n (sym e))
      ∙ laws.callback "event_cb" k (api.set_callback "dr_cb" r)
      ∙ laws.callback "dr_cb" k r

  address_set-Holds :
      (address : String) (rest : List (String × String)) (r : R)
      → All (λ k. k ≢ "metadata.broker.list") (map (λ (k, v). k) rest)
      → All (Holds r) rest
      → All (Holds (address_set address r)) rest
  address_set-Holds address [] r n h = tt
  address_set-Holds address ((k, v) ∷ rest) r n h =
      (address_set_other address k r n.0 ∙ h.0, address_set-Holds address rest r n.1 h.1)

  -- The value of the list of brokers, unless librdkafka refused it, which nobody looks at.
  address_set_get :
      (address : String) (r : R)
      → (api.get "metadata.broker.list" (address_set address r) ≡ some address)
        ⊎ ((api.set "metadata.broker.list" address (with_callbacks api r)).1 ≡ false)
  address_set_get address r =
      elim (Bool-cases (api.set "metadata.broker.list" address (with_callbacks api r)).1) [
        | inl e ↦ inl (laws.taken "metadata.broker.list" address (with_callbacks api r) e)
        | inr e ↦ inr e
      ]

  -- The producer's configuration has every setting and the address, unless that was refused; `r` is
  -- the configuration behind `apply`.
  abbrev pub Made : (R → Bool) → BrokerSettings → R → Result R → Type 0
  Made creates settings r made =
      ((r' : R) × (made ≡ ok r')
        × (creates r' ≡ true)
        × All (Holds r') settings.kafka_configuration
        × ((api.get "metadata.broker.list" r' ≡ some settings.address)
            ⊎ ((api.set "metadata.broker.list" settings.address (with_callbacks api r)).1 ≡ false)))
      ⊎ ((text : String) × (made ≡ err (runtime_error text)))

  create_handle_lem :
      (creates : R → Bool) (settings : BrokerSettings) (r : R) (result : Result Void)
      → All (λ k. k ≢ "metadata.broker.list") (map (λ (k, v). k) settings.kafka_configuration)
      → (result ≡ ok tt → All (Holds r) settings.kafka_configuration)
      → Made creates settings r (create_handle api creates settings.address (r, result))
  create_handle_lem creates settings r (err e) n h =
      inr ("Cannot create kafka handle due to configuration error", refl)
  create_handle_lem creates settings r (ok u) n h =
      let r' = address_set settings.address r in
      elim (Bool-cases (creates r')) [
        | inl e ↦ rw e (
            inl (
              r',
              refl,
              e,
              address_set-Holds settings.address settings.kafka_configuration r n (h refl),
              address_set_get settings.address r,
            ))
        | inr e ↦ rw e (inr ("can not create Kafka handle", refl))
      ]

  -- A producer that is made has a configuration with every setting, where no setting is for the list of
  -- brokers, and with the address as that list, unless librdkafka refused it. Otherwise a runtime
  -- error is thrown, and no other exception.
  pub make_producer_lem :
      (creates : R → Bool) (settings : BrokerSettings) (r : R)
      → Distinct (map (λ (k, v). k) settings.kafka_configuration)
      → All (λ k. k ≢ "metadata.broker.list") (map (λ (k, v). k) settings.kafka_configuration)
      → Made creates settings
          (apply api settings.kafka_configuration r).0
          (make_producer api creates settings r)
  unfolding make_producer
  make_producer_lem creates settings r d n =
      let (r', result) = apply api settings.kafka_configuration r in
      create_handle_lem creates settings r' result n (apply-Holds settings.kafka_configuration r d)
