-- ===== src/Queue.antt =====
-- `moodycamel::ConcurrentQueue`, a third-party queue, by what its documentation promises to one
-- thread: elements enqueued by a thread are dequeued in order, `enqueue` fails only when memory
-- runs out and then leaves the queue as it was, and `size_approx` is exact while no other thread
-- touches the queue. `Q` is the type of queues and `A` that of elements.
use forward_epics_to_kafka.Base.{
  sym, ap, ◌∙◌, inl, inr, Option-cases, cons_inj, ℕ, ◌≡◌, Option, none, some, List, [], ◌∷◌, ◌++◌,
  length,
}

pub record QueueApi (Q A : Type 0) : Type 0 where
  pub contents : Q → List A
  -- `none`: the call returned false.
  pub enqueue : Q → A → Option Q
  pub try_dequeue : Q → Option (A × Q)
  pub size_approx : Q → ℕ
  pub contents-enqueue :
      (q : Q) (a : A) (q' : Q) → enqueue q a ≡ some q' → contents q' ≡ contents q ++ a ∷ []
  pub try_dequeue_none : (q : Q) → try_dequeue q ≡ none → contents q ≡ []
  pub try_dequeue_some :
      (q : Q) (a : A) (q' : Q) → try_dequeue q ≡ some (a, q') → contents q ≡ a ∷ contents q'
  pub size_approx_lem : (q : Q) → size_approx q ≡ length (contents q)

-- Memory does not run out.
abbrev pub HasMemory : {Q A : Type 0} → QueueApi Q A → Type 0
HasMemory {Q} {A} api = (q : Q) (a : A) → (q' : Q) × (api.enqueue q a ≡ some q')

-- What `try_dequeue` does to a queue whose contents are known.
pub try_dequeue_cons :
    {Q A : Type 0} (api : QueueApi Q A) (q : Q) (x : A) (xs : List A)
    → api.contents q ≡ x ∷ xs
    → (q' : Q) × (api.try_dequeue q ≡ some (x, q')) × (api.contents q' ≡ xs)
try_dequeue_cons api q x xs c = elim (Option-cases (api.try_dequeue q)) [
  | inl e ↦ absurd (cc (c, api.try_dequeue_none q e))
  | inr ((y, q'), e) ↦
      let (same, rest) =
        cons_inj y x (api.contents q') xs (sym (api.try_dequeue_some q y q' e) ∙ c) in
      (q', e ∙ ap (λ z. some (z, q')) same, rest)
]

pub try_dequeue_nil :
    {Q A : Type 0} (api : QueueApi Q A) (q : Q) → api.contents q ≡ [] → api.try_dequeue q ≡ none
try_dequeue_nil api q c = elim (Option-cases (api.try_dequeue q)) [
  | inl e ↦ e
  | inr ((y, q'), e) ↦ absurd (cc (c, api.try_dequeue_some q y q' e))
]
