-- ===== src/Base/Repeats.antt =====
-- Lists without a repeated element.
use mathlib.Core.Logic.{◌≢◌, inl, inr}
use mathlib.Core.Bool.{Bool}
use mathlib.Core.List.{List, [], ◌∷◌, ◌++◌, map}
use forward_epics_to_kafka.Base.Lists.{All, All-append, keep}
use forward_epics_to_kafka.Base.Tests.{Bool-cases}

module _ {ℓ} {A : Type ℓ} where
  abbrev pub Distinct : List A → Type ℓ
  Distinct [] = Unit
  Distinct (a ∷ as') = All (λ b. b ≢ a) as' × Distinct as'

  pub Distinct-append :
      (as' : List A) (a : A) → Distinct as' → All (λ b. a ≢ b) as' → Distinct (as' ++ a ∷ [])
  Distinct-append [] a d h = (tt, tt)
  Distinct-append (b ∷ bs) a d h =
      (All-append (λ c. c ≢ b) bs (a ∷ []) d.0 (h.0, tt), Distinct-append bs a d.1 h.1)

module _ {ℓ κ} {A : Type ℓ} {B : Type κ} (f : A → B) (p : A → Bool) where
  pub All-keep {μ} : (P : B → Type μ) (xs : List A) → All P (map f xs) → All P (map f (keep p xs))
  All-keep P [] h = tt
  All-keep P (x ∷ xs) h = elim (Bool-cases (p x)) [
    | inl e ↦ rw e (h.0, All-keep P xs h.1)
    | inr e ↦ rw e (All-keep P xs h.1)
  ]

  pub Distinct-keep : (xs : List A) → Distinct (map f xs) → Distinct (map f (keep p xs))
  Distinct-keep [] h = tt
  Distinct-keep (x ∷ xs) h = elim (Bool-cases (p x)) [
    | inl e ↦ rw e (All-keep (λ b. b ≢ f x) xs h.0, Distinct-keep xs h.1)
    | inr e ↦ rw e (Distinct-keep xs h.1)
  ]
