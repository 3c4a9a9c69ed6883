-- ===== src/EpicsClient/Random.antt =====
-- src/EpicsClient/EpicsClientRandom.h and src/EpicsClient/EpicsClientRandom.cpp: a client that makes
-- updates up. `V` is the type of the values; the random value and the time in nanoseconds are
-- arguments.
use forward_epics_to_kafka.Base.{
  ℕ, ◌-◌, ◌*◌, ◌/◌, ◌^◌, ◌<◌, ◌≡◌, refl, ap, sym, ◌∙◌, map, All, append-nil, append_assoc, String,
  false, none, some, List, [], ◌∷◌, ◌++◌, Option, arith,
}
use forward_epics_to_kafka.Base.Int.{ℤ, pos, negsuc}
use forward_epics_to_kafka.TdcTime.{to_uint64}
use forward_epics_to_kafka.F142.{
  PvUpdate, LogData, Statistics, AlarmSchema, scalar_field, pv_double, scalar, double, make_value,
  make_value_scalar, element_of, alarm_info, timestamp_of, create,
}

pub record RandomClient (V : Type 0) : Type 0 where
  pub channel_name : String
  pub emit_queue : List (PvUpdate V)
  pub status : ℤ

-- The seconds and the nanoseconds of the current time.
unfoldable pub time_stamp_of : ℕ → ℤ × ℤ
time_stamp_of now =
    let seconds = now / 1000000000 in (pos seconds, pos (now - seconds * 1000000000))

module _ {V : Type 0} where
  unfoldable pub emit : PvUpdate V → RandomClient V → RandomClient V
  emit u c = record c { emit_queue = c.emit_queue ++ u ∷ [] }

  unfoldable pub stop : RandomClient V → RandomClient V
  stop c = c

  unfoldable pub error_in_epics : RandomClient V → RandomClient V
  error_in_epics c = record c { status = negsuc 0 }

  unfoldable pub get_connection_state : RandomClient V → String
  get_connection_state c = "EpicsClientRandom"

  -- The structure has an alarm with a message alone, and the update is not flagged.
  unfoldable pub create_fake_pv_structure : V → ℕ → String → PvUpdate V
  unfolding time_stamp_of
  create_fake_pv_structure v now channel = record {
    channel = channel;
    value = some (scalar_field pv_double v);
    alarm = some (record { message = "NO_ALARM"; severity = none });
    alarm_status_changed = false;
    time_stamp = some (time_stamp_of now);
  }

  unfoldable pub generate_fake_pv_update : V → ℕ → RandomClient V → RandomClient V
  unfolding create_fake_pv_structure emit
  generate_fake_pv_update v now c = emit (create_fake_pv_structure v now c.channel_name) c

  -- Which updates are made, by their values and times.
  unfoldable pub generate_all : List (V × ℕ) → RandomClient V → RandomClient V
  unfolding generate_fake_pv_update
  generate_all [] c = c
  generate_all ((v, now) ∷ rest) c = generate_all rest (generate_fake_pv_update v now c)

timestamp_of-time_stamp_of : (now : ℕ) → now < 2 ^ 64 → timestamp_of (time_stamp_of now) ≡ now
unfolding timestamp_of time_stamp_of to_uint64
timestamp_of-time_stamp_of now h = omega (arith, h)

module _ {V : Type 0} where
  abbrev messages :
      LogData V → Option (List (LogData V) × Statistics) → Option (List (LogData V) × Statistics)
  messages m none = none
  messages m (some (ms, st)) = some (m ∷ ms, st)

  abbrev messages_from :
      Option (LogData V × Statistics)
      → (Statistics → Option (List (LogData V) × Statistics))
      → Option (List (LogData V) × Statistics)
  messages_from none rest = none
  messages_from (some (m, st)) rest = messages m (rest st)

  -- The updates of a queue converted one after another, as the paths of the stream do.
  abbrev pub create_all :
      AlarmSchema → List (PvUpdate V) → Statistics → Option (List (LogData V) × Statistics)
  create_all schema [] st = some ([], st)
  create_all schema (u ∷ us) st = messages_from (create schema u st) (create_all schema us)

  -- The message of a value and a time.
  abbrev pub sent : String → V × ℕ → LogData V
  sent channel (v, now) = record {
    key = channel;
    source_name = channel;
    value_type = scalar double;
    value = some v;
    alarm = none;
    timestamp = some now;
  }

  abbrev fake : String → V × ℕ → PvUpdate V
  fake channel (v, now) = create_fake_pv_structure v now channel

  create-sent :
      (schema : AlarmSchema) (channel : String) (x : V × ℕ) (st : Statistics)
      → x.1 < 2 ^ 64
      → create schema (fake channel x) st ≡ some (sent channel x, st)
  unfolding create create_fake_pv_structure make_value make_value_scalar element_of alarm_info
  create-sent schema channel (v, now) st h =
      ap (λ n. some (record (sent channel (v, now)) { timestamp = some n }, st))
        (timestamp_of-time_stamp_of now h)

  create_all-sent :
      (schema : AlarmSchema) (channel : String) (xs : List (V × ℕ)) (st : Statistics)
      → All (λ x. x.1 < 2 ^ 64) xs
      → create_all schema (map (fake channel) xs) st ≡ some (map (sent channel) xs, st)
  create_all-sent schema channel [] st h = refl
  create_all-sent schema channel (x ∷ xs) st h =
      ap (λ o. messages_from o (create_all schema (map (fake channel) xs)))
        (create-sent schema channel x st h.0)
      ∙ ap (messages (sent channel x)) (create_all-sent schema channel xs st h.1)

  generate_all_queue :
      (xs : List (V × ℕ)) (c : RandomClient V)
      → (generate_all xs c).emit_queue ≡ c.emit_queue ++ map (fake c.channel_name) xs
  unfolding generate_all
  generate_all_queue [] c = sym (append-nil c.emit_queue)
  generate_all_queue ((v, now) ∷ xs) c =
      generate_all_queue xs (generate_fake_pv_update v now c)
      ∙ append_assoc c.emit_queue (fake c.channel_name (v, now) ∷ []) (map (fake c.channel_name) xs)

  -- What a random client with an empty queue makes up, at times that fit 64 bits, is converted without a
  -- fault, to one message for each value, in order, under the name of the channel and without alarm
  -- fields, which has the time to the nanosecond. No error is counted.
  pub generate_all-create_all :
      (schema : AlarmSchema) (xs : List (V × ℕ)) (c : RandomClient V) (st : Statistics)
      → c.emit_queue ≡ []
      → All (λ x. x.1 < 2 ^ 64) xs
      → create_all schema (generate_all xs c).emit_queue st
        ≡ some (map (sent c.channel_name) xs, st)
  generate_all-create_all schema xs c st e h =
      ap (λ us. create_all schema us st)
        (generate_all_queue xs c ∙ ap (λ q. q ++ map (fake c.channel_name) xs) e)
      ∙ create_all-sent schema c.channel_name xs st h
