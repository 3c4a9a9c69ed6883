-- ===== src/Forwarder/Flag.antt =====
-- The flag of src/Forwarder.cpp that stops the main loop. `compare_exchange_weak` is tried until it
-- succeeds, so that each raise is one atomic step, and the flag is the number of its two bits.
use forward_epics_to_kafka.Base.{
  ◌∙◌, ℕ, ◌+◌, ◌/◌, ◌%◌, ◌==◌, ◌<◌, ◌≡◌, Bool, true, false, ◌&&◌, ◌||◌, List, [], ◌∷◌,
  if◌then◌else◌, arith,
}

pub data ForwardingRunState : Type 0 where
  run stop stop_due_to_signal : ForwardingRunState

-- `static_cast<int>(Expect) | static_cast<int>(ToBeRaised)`, for each of the states to be raised.
unfoldable pub raise_forwarding_flag : ForwardingRunState → ℕ → ℕ
raise_forwarding_flag run f = f
raise_forwarding_flag stop f = if f % 2 == 1 then f else f + 1
raise_forwarding_flag stop_due_to_signal f = if (f / 2) % 2 == 1 then f else f + 2

unfoldable pub stop_forwarding : ℕ → ℕ
unfolding raise_forwarding_flag
stop_forwarding f = raise_forwarding_flag stop f

unfoldable pub stop_forwarding_due_to_signal : ℕ → ℕ
unfolding raise_forwarding_flag
stop_forwarding_due_to_signal f = raise_forwarding_flag stop_due_to_signal f

unfoldable pub is_stop_due_to_signal : ℕ → Bool
is_stop_due_to_signal f = (f / 2) % 2 == 1

-- Raises from any number of threads, in the order in which they take effect.
unfoldable pub raise_all : List ForwardingRunState → ℕ → ℕ
unfolding raise_forwarding_flag
raise_all [] f = f
raise_all (r ∷ rs) f = raise_all rs (raise_forwarding_flag r f)

abbrev pub is_run : ForwardingRunState → Bool
is_run run = true
is_run _ = false

abbrev pub is_signal : ForwardingRunState → Bool
is_signal stop_due_to_signal = true
is_signal _ = false

abbrev pub all_run : List ForwardingRunState → Bool
all_run [] = true
all_run (r ∷ rs) = is_run r && all_run rs

abbrev pub any_signal : List ForwardingRunState → Bool
any_signal [] = false
any_signal (r ∷ rs) = is_signal r || any_signal rs

abbrev pub is_stop : ForwardingRunState → Bool
is_stop stop = true
is_stop _ = false

abbrev pub any_stop : List ForwardingRunState → Bool
any_stop [] = false
any_stop (r ∷ rs) = is_stop r || any_stop rs

raised :
    (r : ForwardingRunState) (f : ℕ)
    → f < 4
    → (raise_forwarding_flag r f < 4)
      × ((raise_forwarding_flag r f == 0) ≡ ((f == 0) && is_run r))
      × (is_stop_due_to_signal (raise_forwarding_flag r f)
          ≡ (is_stop_due_to_signal f || is_signal r))
unfolding raise_forwarding_flag is_stop_due_to_signal
raised run f h = ground arith
raised stop f h = ground arith
raised stop_due_to_signal f h = ground arith

raise_all_from :
    (rs : List ForwardingRunState) (f : ℕ)
    → f < 4
    → ((raise_all rs f == 0) ≡ ((f == 0) && all_run rs))
      × (is_stop_due_to_signal (raise_all rs f) ≡ (is_stop_due_to_signal f || any_signal rs))
unfolding raise_all
raise_all_from [] f h = ground arith
raise_all_from (r ∷ rs) f h =
    let (small, halts, signal) = raised r f h in
    let (a, b) = raise_all_from rs (raise_forwarding_flag r f) small in
    ground (arith, a, b, halts, signal)

-- The loop goes on exactly while nothing but RUN was raised, and it ends due to a signal exactly if a
-- signal was raised, in whatever order the raises come.
pub raise_all_lem :
    (rs : List ForwardingRunState)
    → ((raise_all rs 0 == 0) ≡ all_run rs)
      × (is_stop_due_to_signal (raise_all rs 0) ≡ any_signal rs)
unfolding is_stop_due_to_signal
raise_all_lem rs = raise_all_from rs 0 (omega arith)

-- The two bits of the flag stay set or are raised, and the others are left alone.
abbrev pub Bits : Bool → Bool → ℕ → ℕ → Type 0
Bits stopped signalled f g =
    ((g % 2 == 1) ≡ ((f % 2 == 1) || stopped))
    × (((g / 2) % 2 == 1) ≡ (((f / 2) % 2 == 1) || signalled))
    × (g / 4 ≡ f / 4)

raised-Bits :
    (r : ForwardingRunState) (f : ℕ) → Bits (is_stop r) (is_signal r) f (raise_forwarding_flag r f)
unfolding raise_forwarding_flag
raised-Bits run f = ground arith
raised-Bits stop f = ground arith
raised-Bits stop_due_to_signal f = ground arith

pub raise_all-Bits :
    (rs : List ForwardingRunState) (f : ℕ) → Bits (any_stop rs) (any_signal rs) f (raise_all rs f)
unfolding raise_all
raise_all-Bits [] f = ground arith
raise_all-Bits (r ∷ rs) f =
    let (a, b, c) = raised-Bits r f in
    let (a', b', c') = raise_all-Bits rs (raise_forwarding_flag r f) in
    (ground (arith, a, a'), ground (arith, b, b'), c' ∙ c)
