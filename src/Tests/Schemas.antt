-- ===== src/Tests/Schemas.antt =====
-- Converters and their messages.
use forward_epics_to_kafka.Base.{true, false, ◌⊎◌, some, none}
use forward_epics_to_kafka.EpicsClient.Random.{
  RandomClient, create_all, generate_all, sent, generate_all-create_all,
}
use forward_epics_to_kafka.SchemaRegistry.{f142_creator, register_times, create-is_registered}
use forward_epics_to_kafka.SchemaRegistry.{create as create_converter}
use forward_epics_to_kafka.Forwarder.{is_registered}
use forward_epics_to_kafka.Base.{
  ℕ, ◌≡◌, refl, true, none, some, [], ◌∷◌, arith, if◌then◌else◌, ◌==◌,
}
use forward_epics_to_kafka.Base.Int.{pos_part, pos, negsuc}
use forward_epics_to_kafka.Base.{map, replicate, ◌*◌}
use forward_epics_to_kafka.F142.Arrays.{Host, concat_map, convert_array, vector_value, size_of}
use forward_epics_to_kafka.F142.Arrays.Bytes.{little_endian}
use forward_epics_to_kafka.TdcTime.{TdcMessage, create}
use forward_epics_to_kafka.TdcTime.Stamps.{chopper, split_stamp, create-chopper}
use forward_epics_to_kafka.F142.{
  minor, major, no_severity, invalid, major_alarm, pv_short, AlarmSchema, Alarm, PvUpdate,
  Statistics, scalar_field, pv_double,
}

abbrev pub no_errors : Statistics
no_errors = record { err_timestamp_not_available = 0; err_not_implemented_yet = 0 }

abbrev pc : Host
pc = record {
  memory = little_endian;
  uninitialized = λ w n. replicate (n * w) 7;
  create_vector = λ w. concat_map (little_endian w);
}

-- The copy has the bytes of the machine.
copied :
    (convert_array pc pv_short true (pos 300 ∷ negsuc 1 ∷ [])).1
    ≡ record { count = 2; bytes = 44 ∷ 1 ∷ 254 ∷ 255 ∷ [] }
unfolding convert_array vector_value size_of
copied = refl

create-chopper_example :
    (m : TdcMessage) × (create "pv" (chopper ((12, 5) ∷ [])) 7 ≡ (some m, 8))
    × (m.name ≡ "pv")
    × (map split_stamp m.timestamps ≡ (12, 5) ∷ [])
    × (m.sequence_counter ≡ 7)
create-chopper_example = create-chopper "pv" (12, 5) [] 7 ((omega arith, omega arith), tt)

abbrev pub alarm_schema : AlarmSchema
alarm_schema = record {
  names = "NO_ALARM" ∷ "HIHI" ∷ [];
  no_alarm_status = 0;
  udf = 2;
  number = λ s. elim s [ minor ↦ 1 | major ↦ 2 | no_severity ↦ 0 | invalid ↦ 3 ];
  epics_severity = λ v. if pos_part v == 2 then some major_alarm else none;
}

abbrev hihi : Alarm
hihi = record { message = "HIHI_ALARM"; severity = some (pos 2) }

abbrev pub measured : PvUpdate ℕ
measured = record {
  channel = "pv";
  value = some (scalar_field pv_double 42);
  alarm = some hihi;
  alarm_status_changed = true;
  time_stamp = some (pos 12, pos 5);
}

abbrev random_client : RandomClient ℕ
random_client = record { channel_name = "pv"; emit_queue = []; status = pos 0 }

-- Two updates in the first two seconds of an era.
generate_all-create_all_example :
    create_all alarm_schema
      (generate_all ((7, 5) ∷ (8, 1000000007) ∷ []) random_client).emit_queue
      no_errors
    ≡ some (sent "pv" (7, 5) ∷ sent "pv" (8, 1000000007) ∷ [], no_errors)
generate_all-create_all_example =
    generate_all-create_all alarm_schema ((7, 5) ∷ (8, 1000000007) ∷ []) random_client no_errors
      refl (omega arith, (omega arith, tt))

create-is_registered_example :
    ((is_registered "f142" ≡ true)
      × (create_converter (register_times 2) "f142"
          ≡ some (record { schema = "f142"; conv = some f142_creator })))
    ⊎ ((is_registered "f142" ≡ false) × (create_converter (register_times 2) "f142" ≡ none))
create-is_registered_example = create-is_registered 1 "f142"
