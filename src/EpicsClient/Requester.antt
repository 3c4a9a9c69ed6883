-- ===== src/EpicsClient/Requester.antt =====
-- src/EpicsClient/ChannelRequester.cpp and FwdMonitorRequester.cpp: the callbacks that EPICS calls, and
-- what they call on the client.
use forward_epics_to_kafka.Base.{
  ℕ, zero, suc, ◌<◌, ◌≡◌, ap, ◌∙◌, Bool, not, ◌||◌, Option, none, some, List, [], ◌∷◌, ◌++◌, map,
  length, append_assoc, append-nil, if◌then◌else◌, arith, sym,
}
use forward_epics_to_kafka.EpicsClient.{
  ChannelConnectionState, EpicsConnectionState, create_channel_connection_state,
}

-- `epics::pvData::Status`, by what the callbacks ask it.
pub record Status : Type 0 where
  pub is_ok : Bool
  pub is_success : Bool

-- The calls on `EpicsClientInterface`, and `Monitor->start()`.
pub data ClientCall (U : Type 0) : Type 0 where
  channel_requester_error : ClientCall U
  connection_state_change : ChannelConnectionState → ClientCall U
  error_in_epics start_monitor : ClientCall U
  emit : U → ClientCall U

module _ {U : Type 0} where
  unfoldable pub channel_created : Status → List (ClientCall U)
  channel_created s = if not s.is_ok || not s.is_success then channel_requester_error ∷ [] else []

  -- `given` says whether the pointer to the channel is set.
  unfoldable pub channel_state_change : Bool → EpicsConnectionState → List (ClientCall U)
  channel_state_change given s =
      if given
      then connection_state_change (create_channel_connection_state s) ∷ []
      else channel_requester_error ∷ []

  unfoldable pub monitor_connect : Status → List (ClientCall U)
  monitor_connect s =
      if s.is_success then (if s.is_ok then start_monitor ∷ [] else []) else error_in_epics ∷ []

  -- The first loop of `monitorEvent`: `poll` gives the elements of the monitor one by one, and each is
  -- copied into an update and released. The first argument is fuel.
  pub poll_all : ℕ → List U → List U → Option (List U)
  poll_all zero pending updates = none
  poll_all (suc f) [] updates = some updates
  poll_all (suc f) (e ∷ pending) updates = poll_all f pending (updates ++ e ∷ [])

  unfoldable pub monitor_event : List U → Option (List (ClientCall U))
  unfolding poll_all
  monitor_event pending = elim (poll_all (suc (length pending)) pending []) [
    | none ↦ none
    | some updates ↦ some (map emit updates)
  ]

  poll_all_lem :
      (f : ℕ) (pending updates : List U)
      → length pending < f
      → poll_all f pending updates ≡ some (updates ++ pending)
  unfolding poll_all
  poll_all_lem zero pending updates h = elim h [ ]
  poll_all_lem (suc f) [] updates h = ap some (sym (append-nil updates))
  poll_all_lem (suc f) (e ∷ pending) updates h =
      poll_all_lem f pending (updates ++ e ∷ []) (omega arith)
      ∙ ap some (append_assoc updates (e ∷ []) pending)

  -- Every element that the monitor holds is emitted once, in order.
  pub monitor_event_lem : (pending : List U) → monitor_event pending ≡ some (map emit pending)
  unfolding monitor_event
  monitor_event_lem pending =
      rw (poll_all_lem (suc (length pending)) pending [] (omega arith), monitor_event)
