-- ===== src/EpicsClient/Impl.antt =====
-- src/EpicsClient/EpicsClientMonitorImpl.h: the channel and the monitor of one client. The EPICS
-- objects are not in the repository: a pointer is whether it is set, and the calls on them are
-- recorded, newest first. Whether `getProvider` and `createMonitor` give an object is an argument.
use forward_epics_to_kafka.Base.{◌≡◌, refl, Bool, true, false, List, [], ◌∷◌, if◌then◌else◌, arith}
use forward_epics_to_kafka.Base.Int.{ℤ, pos, negsuc}

pub data EpicsCall : Type 0 where
  create_channel create_monitor monitor_stop monitor_destroy channel_destroy : EpicsCall

pub record Impl : Type 0 where
  pub provider : Bool
  pub channel_requester : Bool
  pub channel : Bool
  pub monitor_requester : Bool
  pub monitor : Bool
  pub calls : List EpicsCall

abbrev pub new_impl : Impl
new_impl = record {
  provider = false;
  channel_requester = false;
  channel = false;
  monitor_requester = false;
  monitor = false;
  calls = [];
}

unfoldable pub init : Bool → Impl → Impl × ℤ
init found i =
    if found
    then (
      record i {
        provider = true;
        channel_requester = true;
        channel = true;
        calls = create_channel ∷ i.calls;
      },
      pos 0,
    )
    else (record i { provider = false }, pos 1)

abbrev end_monitor : Impl → List EpicsCall
end_monitor i = if i.monitor then monitor_destroy ∷ monitor_stop ∷ i.calls else i.calls

unfoldable pub monitoring_stop : Impl → Impl × ℤ
monitoring_stop i =
    (record i { calls = end_monitor i; monitor_requester = false; monitor = false }, pos 0)

unfoldable pub monitoring_start : Bool → Impl → Impl × ℤ
unfolding monitoring_stop
monitoring_start made i =
    if i.channel
    then (let j = if i.monitor then (monitoring_stop i).0 else i in
        let k = record j {
          monitor_requester = true;
          monitor = made;
          calls = if made then create_monitor ∷ j.calls else j.calls;
        } in
        if made then (k, pos 0) else (k, negsuc 1))
    else (i, negsuc 0)

unfoldable pub channel_destroyed : Impl → Impl × ℤ
unfolding monitoring_stop
channel_destroyed i = ((monitoring_stop i).0, pos 0)

unfoldable pub stop : Impl → Impl × ℤ
stop i = (
  record i {
    calls = if i.channel then channel_destroy ∷ end_monitor i else end_monitor i;
    monitor = false;
    channel = false;
  },
  pos 0,
)

-- How far the objects of a client have come: no channel, a channel alone, with a monitor, with one that
-- is stopped and not yet destroyed, or a call out of turn.
pub data Life : Type 0 where
  no_channel channel_only monitored halted out_of_turn : Life

-- Each call has its turn: a monitor is made where there is a channel and no other monitor, then stopped,
-- and only then destroyed, and a channel is destroyed when it has no monitor left.
abbrev pub after_call : EpicsCall → Life → Life
after_call create_channel no_channel = channel_only
after_call create_monitor channel_only = monitored
after_call monitor_stop monitored = halted
after_call monitor_destroy halted = channel_only
after_call channel_destroy channel_only = no_channel
after_call c l = out_of_turn

abbrev pub life : List EpicsCall → Life
life [] = no_channel
life (c ∷ cs) = after_call c (life cs)

abbrev pub life_of : Bool → Bool → Life
life_of false monitor = no_channel
life_of true false = channel_only
life_of true true = monitored

-- All calls came in turn, and the pointers tell how far they have come.
pub record OwnsMonitor (i : Impl) : Type 0 where
  pub in_turn : life i.calls ≡ life_of i.channel i.monitor
  pub supported : i.monitor ≡ true → i.channel ≡ true

-- The calls that a client makes on its `Impl`.
pub data ImplCall : Type 0 where
  start_monitor : Bool → ImplCall
  stop_monitor destroy_channel stop_all : ImplCall

unfoldable pub call_impl : Impl → ImplCall → Impl
unfolding monitoring_start monitoring_stop channel_destroyed stop
call_impl i (start_monitor made) = (monitoring_start made i).0
call_impl i stop_monitor = (monitoring_stop i).0
call_impl i destroy_channel = (channel_destroyed i).0
call_impl i stop_all = (stop i).0

call_impl-OwnsMonitor : (i : Impl) (c : ImplCall) → OwnsMonitor i → OwnsMonitor (call_impl i c)
unfolding call_impl
call_impl-OwnsMonitor i (start_monitor made) h = record {
  in_turn = ground (arith, h.in_turn);
  supported = ground arith;
}
call_impl-OwnsMonitor i _ h = record {
  in_turn = ground (arith, h.in_turn);
  supported = ground arith;
}

unfoldable pub call_all : Impl → List ImplCall → Impl
call_all i [] = i
call_all i (c ∷ cs) = call_all (call_impl i c) cs

call_all-keeps : (i : Impl) (cs : List ImplCall) → OwnsMonitor i → OwnsMonitor (call_all i cs)
unfolding call_all
call_all-keeps i [] h = h
call_all-keeps i (c ∷ cs) h = call_all-keeps (call_impl i c) cs (call_impl-OwnsMonitor i c h)

init-OwnsMonitor : (found : Bool) → OwnsMonitor (init found new_impl).0
unfolding init
init-OwnsMonitor true = record { in_turn = refl; supported = ground arith }
init-OwnsMonitor false = record { in_turn = refl; supported = ground arith }

-- Whatever a client calls on its freshly initialised `Impl`, and in whatever order: each monitor is made
-- on a channel and stopped and then destroyed, once, before the next one is made and before the channel
-- is destroyed; only the one at hand is left.
pub call_all-OwnsMonitor :
    (found : Bool) (cs : List ImplCall) → OwnsMonitor (call_all (init found new_impl).0 cs)
call_all-OwnsMonitor found cs = call_all-keeps _ cs (init-OwnsMonitor found)
