-- ===== src/Tests/Clients.antt =====
-- The EPICS clients.
use forward_epics_to_kafka.Base.{
  ◌≡◌, refl, true, false, none, some, List, [], ◌∷◌, arith, ◌==◌, if◌then◌else◌,
}
use forward_epics_to_kafka.Base.Int.{pos}
use forward_epics_to_kafka.EpicsClient.Impl.{
  new_impl, init, OwnsMonitor, start_monitor, stop_monitor, stop_all, call_all,
  call_all-OwnsMonitor, ImplCall,
}
use forward_epics_to_kafka.EpicsClient.Monitor.{Updates, MonitorClient}
use forward_epics_to_kafka.EpicsClient.Monitor.Alarms.{emit_all, emit_all-Flags, Flags}
use forward_epics_to_kafka.EpicsClient.{never_connected}

abbrev calls : List ImplCall
calls = start_monitor true ∷ start_monitor true ∷ stop_monitor ∷ start_monitor false ∷ stop_all ∷ []

call_all-OwnsMonitor_example : OwnsMonitor (call_all (init true new_impl).0 calls)
call_all-OwnsMonitor_example = call_all-OwnsMonitor true calls

-- The updates 0, 1 and 2, of which the last has another alarm.
abbrev updates : Updates
updates u = record {
  message = some (if u == 2 then "HIGH" else "NO_ALARM");
  alarm_status_changed = false;
}

abbrev client : MonitorClient
client = record {
  channel_name = "pv";
  impl = new_impl;
  emit_queue = [];
  cached_update = none;
  status = pos 0;
  connection_state = never_connected;
  service_id = "";
  has_producer = false;
  produced = [];
}

emit_all-Flags_example :
    (m' : Updates) × (c' : MonitorClient) × (emit_all (0 ∷ 1 ∷ 2 ∷ []) (updates, client)
      ≡ some (m', c'))
    × Flags updates client (0 ∷ 1 ∷ 2 ∷ []) (true ∷ false ∷ true ∷ []) m' c'
emit_all-Flags_example =
    emit_all-Flags 0 (1 ∷ 2 ∷ []) "NO_ALARM" ("NO_ALARM" ∷ "HIGH" ∷ []) updates client refl (
      (refl, refl),
      (omega arith, (omega arith, tt)),
      ((refl, refl), (omega arith, tt), ((refl, refl), tt, tt)),
    )
