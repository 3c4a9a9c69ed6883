-- ===== src/Tests.antt =====
-- Concrete inputs, and what the theorems say of them. The third-party queue is a list here.
mod Sample
mod Outputs
mod Flow
mod System
mod Races
mod Commands
mod Broker
mod Schemas
mod Clients
mod Program
use mathlib.Core.Option.{some-injective}
use forward_epics_to_kafka.Base.{
  ℕ, ◌+◌, ◌≡◌, refl, sym, ap, Option, none, some, List, [], ◌∷◌, ◌++◌, length,
}
use forward_epics_to_kafka.Queue.{QueueApi, HasMemory}

module _ {A : Type 0} where
  abbrev pub dequeue : List A → Option (A × List A)
  dequeue [] = none
  dequeue (a ∷ as') = some (a, as')

  pub dequeue-none : (q : List A) → dequeue q ≡ none → q ≡ []
  dequeue-none [] e = refl
  dequeue-none (a ∷ as') e = cc

  pub dequeue-some : (q : List A) (a : A) (q' : List A) → dequeue q ≡ some (a, q') → q ≡ a ∷ q'
  dequeue-some [] a q' e = cc
  dequeue-some (b ∷ bs) a q' e = ap (λ r. r.0 ∷ r.1) (some-injective _ _ e)

  abbrev pub list_queue : QueueApi (List A) A
  list_queue = record {
    contents = λ q. q;
    enqueue = λ q a. some (q ++ a ∷ []);
    try_dequeue = dequeue;
    size_approx = length;
    contents-enqueue = λ q a q' e. sym (some-injective _ _ e);
    try_dequeue_none = dequeue-none;
    try_dequeue_some = dequeue-some;
    size_approx_lem = λ q. refl;
  }

  pub list_queue-HasMemory : HasMemory list_queue
  list_queue-HasMemory q a = (q ++ a ∷ [], refl)
