-- ===== src/Main/Signals.antt =====
-- `SignalHandler` and `handleSignal` of src/Main.cpp. A signal comes between the steps of the main
-- thread; one that runs its handler on another thread is not modelled.
pub mod Raised
use forward_epics_to_kafka.Base.{
  ℕ, ◌≡◌, refl, Bool, true, false, ◌||◌, List, [], ◌∷◌, if◌then◌else◌, ◌⊎◌, inl, inr,
}
use forward_epics_to_kafka.Forwarder.Flag.{stop_forwarding_due_to_signal, is_stop_due_to_signal}

pub data Signal : Type 0 where
  interrupt terminate : Signal

-- How far the main thread is: before the constructor, behind each of its statements, and behind each of
-- those of the destructor.
pub data Point : Type 0 where
  outside stored interrupt_set inside interrupt_reset terminate_reset cleared : Point

-- `pointer` says whether `g__SignalHandler` points to the object, the next two which signals have
-- `handleSignal` for their handler.
pub record Process : Type 0 where
  pub point : Point
  pub pointer : Bool
  pub on_interrupt : Bool
  pub on_terminate : Bool
  pub flag : ℕ
  pub killed : Bool

unfoldable pub new_process : Process
new_process = record {
  point = outside;
  pointer = false;
  on_interrupt = false;
  on_terminate = false;
  flag = 0;
  killed = false;
}

-- The next statement of the constructor or of the destructor.
abbrev pub advance_from : Point → Process → Process
advance_from outside p = record p { point = stored; pointer = true }
advance_from stored p = record p { point = interrupt_set; on_interrupt = true }
advance_from interrupt_set p = record p { point = inside; on_terminate = true }
advance_from inside p = record p { point = interrupt_reset; on_interrupt = false }
advance_from interrupt_reset p = record p { point = terminate_reset; on_terminate = false }
advance_from terminate_reset p = record p { point = cleared; pointer = false }
advance_from cleared p = p

unfoldable pub advance : Process → Process
advance p = advance_from p.point p

unfoldable pub handle_signal : Process → Process
unfolding stop_forwarding_due_to_signal
handle_signal p = if p.pointer then record p { flag = stop_forwarding_due_to_signal p.flag } else p

abbrev pub is_handled : Signal → Process → Bool
is_handled interrupt p = p.on_interrupt
is_handled terminate p = p.on_terminate

-- A signal with its default handler ends the process.
unfoldable pub deliver : Signal → Process → Process
unfolding handle_signal
deliver s p = if is_handled s p then handle_signal p else record p { killed = true }

pub data Happens : Type 0 where
  goes_on : Happens
  signalled : Signal → Happens

abbrev pub step : Happens → Process → Process
step goes_on p = advance p
step (signalled s) p = deliver s p

unfoldable pub run : List Happens → Process → Process
unfolding advance deliver
run [] p = p
run (h ∷ hs) p = let rest = run hs (step h p) in if p.killed then p else rest

abbrev pub any_signal : List Happens → Bool
any_signal [] = false
any_signal (goes_on ∷ hs) = any_signal hs
any_signal (signalled s ∷ hs) = true
