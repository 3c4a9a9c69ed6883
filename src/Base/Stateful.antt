-- ===== src/Base/Stateful.antt =====
-- Code that changes a state and may throw: the state is kept where an exception is thrown.
use forward_epics_to_kafka.Base.Except.{Result, ok, err}

abbrev pub Step {ℓ κ} : Type ℓ → Type κ → Type (ℓ ⊔ κ)
Step S A = S → S × Result A

module _ {ℓ κ μ} {S : Type ℓ} {A : Type κ} {B : Type μ} where
  abbrev pub resume : (A → Step S B) → S × Result A → S × Result B
  resume f (s, ok a) = f a s
  resume f (s, err e) = (s, err e)

  infixl 5 ◌>>>◌
  abbrev pub ◌>>>◌ : Step S A → (A → Step S B) → Step S B
  (m >>> f) s = resume f (m s)

  resume_keeps {ν} :
      (P : S → Type ν) (f : A → Step S B) (r : S × Result A)
      → P r.0
      → ((a : A) (s : S) → P s → P (f a s).0)
      → P (resume f r).0
  resume_keeps P f (s, ok a) h k = k a s h
  resume_keeps P f (s, err e) h k = h

  -- What both steps keep, whether or not they throw, the two in a row keep.
  pub >>>-keeps {ν} :
      (P : S → Type ν) (m : Step S A) (f : A → Step S B)
      → ((s : S) → P s → P (m s).0)
      → ((a : A) (s : S) → P s → P (f a s).0)
      → (s : S) → P s
      → P ((m >>> f) s).0
  >>>-keeps P m f h k s p = resume_keeps P f (m s) (h s p) k

-- The result of a `void` function.
abbrev pub Void : Type 0
Void = Unit
