-- ===== src/EpicsClient/Monitor/Alarms.antt =====
-- Which updates tell Kafka of their alarm.
use forward_epics_to_kafka.Base.{
  ℕ, ◌≡◌, refl, sym, ◌∙◌, String, Bool, true, false, not, Option, none, some, List, [], ◌∷◌, ◌++◌,
  map, append-nil, append_assoc, arith, str_eq, All, ◌≢◌, subst,
}
use mathlib.Core.Option.{some-injective}
use forward_epics_to_kafka.EpicsClient.Monitor.{
  EpicsPvUpdate, Updates, set_changed, flagged, with_cache, MonitorClient, emit, emit_cached_value,
  to_be_flagged,
}

-- A run of updates, in order.
unfoldable pub emit_all : List ℕ → Updates × MonitorClient → Option (Updates × MonitorClient)
emit_all [] s = some s
emit_all (u ∷ us) s = elim (emit u s) [ none ↦ none | some s' ↦ emit_all us s' ]

abbrev pub IsFresh : EpicsPvUpdate → String → Type 0
IsFresh p a = (p.message ≡ some a) × (p.alarm_status_changed ≡ false)

-- The updates, each at an address of its own, with the message that it carries.
abbrev pub Carries : Updates → List ℕ → List String → Type 0
Carries m [] [] = Unit
Carries m (u ∷ us) (a ∷ as') = IsFresh (m u) a × All (λ v. v ≢ u) us × Carries m us as'
Carries m _ _ = ⊥

-- Where each message differs from the one before it, `before` the first.
abbrev pub changes : String → List String → List Bool
changes before [] = []
changes before (a ∷ as') = not (str_eq a before) ∷ changes a as'

flagged_other : (flag : Bool) (m : Updates) (u v : ℕ) → v ≢ u → flagged flag m u v ≡ m v
flagged_other true m u v h = ground arith
flagged_other false m u v h = refl

flagged_self :
    (flag : Bool) (m : Updates) (u : ℕ) (a : String)
    → IsFresh (m u) a
    → ((flagged flag m u u).message ≡ some a) × ((flagged flag m u u).alarm_status_changed ≡ flag)
flagged_self true m u a h = ground arith
flagged_self false m u a h = h

Carries-agree :
    (m m' : Updates) (us : List ℕ) (as' : List String)
    → All (λ u. m' u ≡ m u) us
    → Carries m us as'
    → Carries m' us as'
Carries-agree m m' [] [] e h = tt
Carries-agree m m' [] (a ∷ as') e h = h
Carries-agree m m' (u ∷ us) [] e h = h
Carries-agree m m' (u ∷ us) (a ∷ as') e h = (rw e.0 h.0, h.1, Carries-agree m m' us as' e.1 h.2)

flagged_rest :
    (flag : Bool) (m : Updates) (u : ℕ) (us : List ℕ)
    → All (λ v. v ≢ u) us
    → All (λ v. flagged flag m u v ≡ m v) us
flagged_rest flag m u [] h = tt
flagged_rest flag m u (v ∷ us) h = (flagged_other flag m u v h.0, flagged_rest flag m u us h.1)

-- What a run of updates leaves: which are flagged, what is queued, and that nothing else changes.
pub record Flags (m : Updates) (c : MonitorClient) (us : List ℕ) (flags : List Bool) (m' : Updates)
    (c' : MonitorClient) : Type 0 where
  pub flags_of : map (λ u. (m' u).alarm_status_changed) us ≡ flags
  pub queued : c'.emit_queue ≡ c.emit_queue ++ us
  pub others : (v : ℕ) → All (λ u. u ≢ v) us → m' v ≡ m v

emit_step :
    (u : ℕ) (m : Updates) (c : MonitorClient) (a before : String) (prev : ℕ)
    → c.cached_update ≡ some prev
    → (m prev).message ≡ some before
    → (m u).message ≡ some a
    → emit u (m, c) ≡ some (flagged (not (str_eq a before)) m u, with_cache u c)
unfolding emit to_be_flagged
emit_step u m c a before prev h k l = rw (h, emit) (rw (l, emit) (rw (k, emit)))

emit_all_cached :
    (us : List ℕ) (as' : List String) (m : Updates) (c : MonitorClient) (before : String) (prev : ℕ)
    → c.cached_update ≡ some prev
    → (m prev).message ≡ some before
    → Carries m us as'
    → (m' : Updates) × (c' : MonitorClient) × (emit_all us (m, c) ≡ some (m', c'))
      × Flags m c us (changes before as') m' c'
unfolding emit_all
emit_all_cached [] [] m c before prev h k l =
    (m, c, refl, record { flags_of = refl; queued = sym (append-nil _); others = λ v _. refl })
emit_all_cached [] (a ∷ as') m c before prev h k l = elim l [ ]
emit_all_cached (u ∷ us) [] m c before prev h k l = elim l [ ]
emit_all_cached (u ∷ us) (a ∷ as') m c before prev h k l =
    let flag = not (str_eq a before) in
    let (text, set) = flagged_self flag m u a l.0 in
    let same = flagged_rest flag m u us l.1 in
    let (m', c', ends, f) =
      emit_all_cached us as' (flagged flag m u) (with_cache u c) a u refl text
        (Carries-agree m (flagged flag m u) us as' same l.2) in
    (
      m',
      c',
      rw (emit_step u m c a before prev h k l.0.0, emit_all) ends,
      record {
        flags_of = cc (f.others u l.1, set, f.flags_of);
        queued = f.queued ∙ append_assoc c.emit_queue (u ∷ []) us;
        others = λ v apart. f.others v apart.1 ∙ flagged_other flag m u v (λ e. apart.0 (sym e));
      },
    )

-- A client that has cached nothing yet flags its first update, and then each one whose alarm message
-- differs from the one before it, and no other. All are queued in order, and other updates stay.
pub emit_all-Flags :
    (u : ℕ) (us : List ℕ) (a : String) (as' : List String) (m : Updates) (c : MonitorClient)
    → c.cached_update ≡ none
    → Carries m (u ∷ us) (a ∷ as')
    → (m' : Updates) × (c' : MonitorClient) × (emit_all (u ∷ us) (m, c) ≡ some (m', c'))
      × Flags m c (u ∷ us) (true ∷ changes a as') m' c'
unfolding emit_all emit to_be_flagged
emit_all-Flags u us a as' m c h l =
    let (text, set) = flagged_self true m u a l.0 in
    let (m', c', ends, f) =
      emit_all_cached us as' (flagged true m u) (with_cache u c) a u refl text
        (Carries-agree m (flagged true m u) us as' (flagged_rest true m u us l.1) l.2) in
    (
      m',
      c',
      rw (h, emit_all) ends,
      record {
        flags_of = cc (f.others u l.1, set, f.flags_of);
        queued = f.queued ∙ append_assoc c.emit_queue (u ∷ []) us;
        others = λ v apart. f.others v apart.1 ∙ flagged_other true m u v (λ e. apart.0 (sym e));
      },
    )

pub Emits : ℕ → Updates → MonitorClient → Updates × MonitorClient → Type 0
Emits u m c s =
    (s.1.emit_queue ≡ c.emit_queue ++ (u ∷ u ∷ []))
    × ((s.0 u).alarm_status_changed ≡ true)
    × ((s.0 u).message ≡ (m u).message)

set_changed_twice :
    (flag : Bool) (m : Updates) (u : ℕ)
    → ((set_changed (flagged flag m u) u u).alarm_status_changed ≡ true)
      × ((set_changed (flagged flag m u) u u).message ≡ (m u).message)
set_changed_twice true m u = ground arith
set_changed_twice false m u = ground arith

emit_then_cached :
    (flag : Bool) (u : ℕ) (m : Updates) (c : MonitorClient)
    → Emits u m c (emit_cached_value (flagged flag m u, with_cache u c))
unfolding emit_cached_value Emits
emit_then_cached flag u m c =
    let (a, b) = set_changed_twice flag m u in (append_assoc c.emit_queue (u ∷ []) (u ∷ []), a, b)

emitted_then_cached :
    (o : Option Bool) (u : ℕ) (m : Updates) (c : MonitorClient) (s : Updates × MonitorClient)
    → elim o as (λ _. Option (Updates × MonitorClient)) [
      | none ↦ none
      | some flag ↦ some (flagged flag m u, with_cache u c)
    ]
      ≡ some s
    → Emits u m c (emit_cached_value s)
emitted_then_cached none u m c s e = cc
emitted_then_cached (some flag) u m c s e =
    subst (λ x. Emits u m c (emit_cached_value x)) (some-injective _ _ e)
      (emit_then_cached flag u m c)

-- A periodic emission queues the update that was emitted last once more, with its flag set. It is the
-- same object: the flag shows in the copy that still waits in the queue too.
emit_cached_value_lem :
    (u : ℕ) (m : Updates) (c : MonitorClient) (s : Updates × MonitorClient)
    → emit u (m, c) ≡ some s
    → Emits u m c (emit_cached_value s)
unfolding emit
emit_cached_value_lem u m c s e = emitted_then_cached (to_be_flagged u m c) u m c s e
