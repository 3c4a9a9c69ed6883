-- ===== src/Main/Signals/Raised.antt =====
-- No signal is lost.
use forward_epics_to_kafka.Base.{
  ℕ, ◌≡◌, refl, Bool, true, false, ◌||◌, List, [], ◌∷◌, ◌++◌, map, if◌then◌else◌, ◌⊎◌, inl, inr,
  arith, Bool-cases, sym, ◌∙◌, ap, subst,
}
use forward_epics_to_kafka.Forwarder.Flag.{stop_forwarding_due_to_signal, is_stop_due_to_signal}
use forward_epics_to_kafka.Main.Signals.{
  Signal, interrupt, terminate, Point, outside, stored, interrupt_set, inside, interrupt_reset,
  terminate_reset, cleared, Process, new_process, advance_from, advance, handle_signal, is_handled,
  deliver, Happens, goes_on, signalled, step, run, any_signal,
}

abbrev next_point : Point → Point
next_point outside = stored
next_point stored = interrupt_set
next_point interrupt_set = inside
next_point inside = interrupt_reset
next_point interrupt_reset = terminate_reset
next_point terminate_reset = cleared
next_point cleared = cleared

abbrev pointer_at : Point → Bool
pointer_at outside = false
pointer_at cleared = false
pointer_at _ = true

abbrev handled_at : Signal → Point → Bool
handled_at interrupt interrupt_set = true
handled_at interrupt inside = true
handled_at terminate inside = true
handled_at terminate interrupt_reset = true
handled_at _ _ = false

-- A signal is handled only while the pointer is set.
record At (q : Point) (p : Process) : Type 0 where
  point : p.point ≡ q
  pointer : p.pointer ≡ pointer_at q
  on_interrupt : p.on_interrupt ≡ handled_at interrupt q
  on_terminate : p.on_terminate ≡ handled_at terminate q

advance_from-At : (q : Point) (p : Process) → At q p → At (next_point q) (advance_from q p)
advance_from-At outside p h = ground arith
advance_from-At stored p h = ground arith
advance_from-At interrupt_set p h = ground arith
advance_from-At inside p h = ground arith
advance_from-At interrupt_reset p h = ground arith
advance_from-At terminate_reset p h = ground arith
advance_from-At cleared p h = ground arith

advance_from-flag :
    (q : Point) (p : Process)
    → ((advance_from q p).flag ≡ p.flag) × ((advance_from q p).killed ≡ p.killed)
advance_from-flag outside p = (refl, refl)
advance_from-flag stored p = (refl, refl)
advance_from-flag interrupt_set p = (refl, refl)
advance_from-flag inside p = (refl, refl)
advance_from-flag interrupt_reset p = (refl, refl)
advance_from-flag terminate_reset p = (refl, refl)
advance_from-flag cleared p = (refl, refl)

handled-pointer : (s : Signal) (q : Point) → handled_at s q ≡ true → pointer_at q ≡ true
handled-pointer interrupt outside e = cc
handled-pointer interrupt stored e = refl
handled-pointer interrupt interrupt_set e = refl
handled-pointer interrupt inside e = refl
handled-pointer interrupt interrupt_reset e = refl
handled-pointer interrupt terminate_reset e = refl
handled-pointer interrupt cleared e = cc
handled-pointer terminate outside e = cc
handled-pointer terminate stored e = refl
handled-pointer terminate interrupt_set e = refl
handled-pointer terminate inside e = refl
handled-pointer terminate interrupt_reset e = refl
handled-pointer terminate terminate_reset e = refl
handled-pointer terminate cleared e = cc

is_handled-At : (s : Signal) (q : Point) (p : Process) → At q p → is_handled s p ≡ handled_at s q
is_handled-At interrupt q p h = h.on_interrupt
is_handled-At terminate q p h = h.on_terminate

or_false : (b : Bool) → b ≡ (b || false)
or_false true = refl
or_false false = refl

or_true : (b : Bool) → (b || true) ≡ true
or_true true = refl
or_true false = refl

stop-is_stop : (f : ℕ) → is_stop_due_to_signal (stop_forwarding_due_to_signal f) ≡ true
unfolding is_stop_due_to_signal stop_forwarding_due_to_signal
stop-is_stop f = ground arith

deliver-killed : (s : Signal) (p : Process) → is_handled s p ≡ false → (deliver s p).killed ≡ true
unfolding deliver
deliver-killed s p e =
    ap (λ b. (if b then handle_signal p else record p { killed = true }).killed) e

deliver-handled :
    (s : Signal) (p : Process)
    → is_handled s p ≡ true
    → p.pointer ≡ true
    → deliver s p ≡ record p { flag = stop_forwarding_due_to_signal p.flag }
unfolding deliver handle_signal
deliver-handled s p e f =
    ap (λ b. if b then handle_signal p else record p { killed = true }) e
    ∙ ap (λ b. if b then record p { flag = stop_forwarding_due_to_signal p.flag } else p) f

-- A signal that does not end the process raises the flag, and is all that it does.
deliver_lem :
    (s : Signal) (q : Point) (p : Process)
    → At q p
    → ((deliver s p).killed ≡ true)
      ⊎ (At q (deliver s p)
          × ((deliver s p).killed ≡ p.killed)
          × (is_stop_due_to_signal (deliver s p).flag ≡ true))
deliver_lem s q p h = elim (Bool-cases (is_handled s p)) [
  | inr no_handler ↦ inl (deliver-killed s p no_handler)
  | inl handled ↦
      let set = h.pointer ∙ handled-pointer s q (sym (is_handled-At s q p h) ∙ handled) in
      inr (
        subst (λ r. At q r × (r.killed ≡ p.killed) × (is_stop_due_to_signal r.flag ≡ true))
          (sym (deliver-handled s p handled set))
          (
            record {
              point = h.point;
              pointer = h.pointer;
              on_interrupt = h.on_interrupt;
              on_terminate = h.on_terminate;
            },
            refl,
            stop-is_stop p.flag,
          ))
]

run_killed : (hs : List Happens) (p : Process) → p.killed ≡ true → (run hs p).killed ≡ true
unfolding run
run_killed [] p e = e
run_killed (h ∷ hs) p e = ap (λ b. (if b then p else run hs (step h p)).killed) e ∙ e

run_alive :
    (h : Happens) (hs : List Happens) (p : Process)
    → p.killed ≡ false
    → run (h ∷ hs) p ≡ run hs (step h p)
unfolding run
run_alive h hs p e = ap (λ b. if b then p else run hs (step h p)) e

-- The process was ended, or whether the flag says that a signal came is `b`.
abbrev pub Ended : Process → Bool → Type 0
Ended p b = (p.killed ≡ true) ⊎ (is_stop_due_to_signal p.flag ≡ b)

advance_lem :
    (q : Point) (p : Process)
    → At q p
    → At (next_point q) (advance p) × ((advance p).flag ≡ p.flag) × ((advance p).killed ≡ p.killed)
unfolding advance
advance_lem q p h =
    let (flag, killed) = advance_from-flag p.point p in
    (
      subst (λ x. At (next_point q) (advance_from x p)) (sym h.point) (advance_from-At q p h),
      flag,
      killed,
    )

run_from :
    (hs : List Happens) (q : Point) (p : Process)
    → At q p
    → p.killed ≡ false
    → Ended (run hs p) (is_stop_due_to_signal p.flag || any_signal hs)
unfolding run
run_from [] q p h alive = inr (or_false (is_stop_due_to_signal p.flag))
run_from (goes_on ∷ hs) q p h alive =
    let (h', flag, killed) = advance_lem q p h in
    subst (λ r. Ended r (is_stop_due_to_signal p.flag || any_signal hs))
      (sym (run_alive goes_on hs p alive))
      (subst (λ f. Ended (run hs (advance p)) (is_stop_due_to_signal f || any_signal hs)) flag
        (run_from hs (next_point q) (advance p) h' (killed ∙ alive)))
run_from (signalled s ∷ hs) q p h alive =
    subst (λ r. Ended r (is_stop_due_to_signal p.flag || true))
      (sym (run_alive (signalled s) hs p alive))
      (elim (deliver_lem s q p h) [
        | inl killed ↦ inl (run_killed hs (deliver s p) killed)
        | inr (h', same, raised) ↦
            subst (Ended (run hs (deliver s p)))
              (ap (λ b. b || any_signal hs) raised ∙ sym (or_true (is_stop_due_to_signal p.flag)))
              (run_from hs q (deliver s p) h' (same ∙ alive))
      ])

handled_inside : (s : Signal) → handled_at s inside ≡ true
handled_inside interrupt = refl
handled_inside terminate = refl

inside_alive :
    (ss : List Signal) (p : Process)
    → At inside p
    → p.killed ≡ false
    → (run (map signalled ss) p).killed ≡ false
unfolding run
inside_alive [] p h alive = alive
inside_alive (s ∷ ss) p h alive =
    let handled = is_handled-At s inside p h ∙ handled_inside s in
    let (h', same) : At inside (deliver s p) × ((deliver s p).killed ≡ p.killed) =
      subst (λ r. At inside r × (r.killed ≡ p.killed)) (sym (deliver-handled s p handled h.pointer))
        (
          record {
            point = h.point;
            pointer = h.pointer;
            on_interrupt = h.on_interrupt;
            on_terminate = h.on_terminate;
          },
          refl,
        ) in
    subst (λ r. r.killed ≡ false) (sym (run_alive (signalled s) (map signalled ss) p alive))
      (inside_alive ss (deliver s p) h' (same ∙ alive))

-- What happens until the object is made, if no signal comes.
abbrev pub made : List Happens
made = goes_on ∷ goes_on ∷ goes_on ∷ []

-- Whenever signals come while the object that handles them is made, is there and is destroyed: either
-- one of them ends the process, or the flag says that a signal came exactly if one did. While the
-- object is there, no signal ends the process.
pub run_lem :
    (hs : List Happens) (ss : List Signal)
    → Ended (run hs new_process) (any_signal hs)
      × ((run (made ++ map signalled ss) new_process).killed ≡ false)
unfolding new_process is_stop_due_to_signal run advance
run_lem hs ss = (
  run_from hs outside new_process
      (record { point = refl; pointer = refl; on_interrupt = refl; on_terminate = refl }) refl,
  inside_alive ss _
      (record { point = refl; pointer = refl; on_interrupt = refl; on_terminate = refl }) refl,
)
