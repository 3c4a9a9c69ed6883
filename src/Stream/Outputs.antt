-- ===== src/Stream/Outputs.antt =====
-- The outputs of a stream's conversion paths.
use forward_epics_to_kafka.Base.{
  ◌≡◌, ◌++◌, refl, true, false, none, some, List, [], ◌∷◌, find_if, All, All-append, ◌⊎◌, inl, inr,
  Bool-cases, Option-cases, arith, eq_iff,
}
use forward_epics_to_kafka.Stream.{ConversionPath, Stream, same_output, add_converter}

abbrev pub SameOutput : ConversionPath → ConversionPath → Type 0
SameOutput p q = (p.topic ≡ q.topic) × (p.converter.schema ≡ q.converter.schema)

-- No path has the topic and the schema of one before it.
abbrev pub Unshared : List ConversionPath → Type 0
Unshared [] = Unit
Unshared (p ∷ ps) = All (λ q. ¬ SameOutput q p) ps × Unshared ps

abbrev pub HasOutput : ConversionPath → List ConversionPath → Type 0
HasOutput p [] = ⊥
HasOutput p (q ∷ qs) = SameOutput p q ⊎ HasOutput p qs

same_output-true : (p q : ConversionPath) → same_output p q ≡ true → SameOutput p q
unfolding same_output
same_output-true p q h = (
  grind (arith, eq_iff p.topic q.topic, eq_iff p.converter.schema q.converter.schema, h),
  grind (arith, eq_iff p.topic q.topic, eq_iff p.converter.schema q.converter.schema, h),
)

same_output-false : (p q : ConversionPath) → same_output p q ≡ false → ¬ SameOutput p q
unfolding same_output
same_output-false p q h (e, f) =
    ground (arith, eq_iff p.topic q.topic, eq_iff p.converter.schema q.converter.schema, h, e, f)

not_shared :
    (p : ConversionPath) (ps : List ConversionPath)
    → find_if (same_output p) ps ≡ none
    → All (λ q. ¬ SameOutput p q) ps
not_shared p [] h = tt
not_shared p (q ∷ qs) h = elim (Bool-cases (same_output p q)) [
  | inl e ↦ ground (arith, h, e)
  | inr e ↦ (
    same_output-false p q e,
    not_shared p qs (let h' : find_if (same_output p) qs ≡ none = ground (arith, h, e) in h'),
  )
]

shared :
    (p r : ConversionPath) (ps : List ConversionPath)
    → find_if (same_output p) ps ≡ some r
    → HasOutput p ps
shared p r [] h = cc
shared p r (q ∷ qs) h = elim (Bool-cases (same_output p q)) [
  | inl e ↦ inl (same_output-true p q e)
  | inr e ↦
      inr
        (shared p r qs (let h' : find_if (same_output p) qs ≡ some r = ground (arith, h, e) in h'))
]

Unshared-append :
    (ps : List ConversionPath) (p : ConversionPath)
    → Unshared ps
    → All (λ q. ¬ SameOutput p q) ps
    → Unshared (ps ++ p ∷ [])
Unshared-append [] p u h = (tt, tt)
Unshared-append (q ∷ qs) p u h =
    (All-append (λ r. ¬ SameOutput r q) qs (p ∷ []) u.0 (h.0, tt), Unshared-append qs p u.1 h.1)

-- A path whose topic and schema are not together those of a path there is put last and the result is 0;
-- otherwise nothing changes and the result is 1. Either way no two paths write the same schema to the
-- same topic, if there were none before.
pub add_converter-Unshared :
    (p : ConversionPath) (s : Stream)
    → Unshared s.conversion_paths
    → Unshared (add_converter p s).0.conversion_paths
      × (((add_converter p s).1 ≡ 0)
            × (All (λ q. ¬ SameOutput p q) s.conversion_paths)
            × ((add_converter p s).0.conversion_paths ≡ s.conversion_paths ++ p ∷ [])
          ⊎ (((add_converter p s).1 ≡ 1)
              × ((add_converter p s).0 ≡ s)
              × HasOutput p s.conversion_paths))
unfolding add_converter
add_converter-Unshared p s u = elim (Option-cases (find_if (same_output p) s.conversion_paths)) [
  | inl e ↦
      let new = not_shared p s.conversion_paths e in
      rw (e, add_converter) (Unshared-append s.conversion_paths p u new, inl (refl, new, refl))
  | inr (q, e) ↦ rw (e, add_converter) (u, inr (refl, refl, shared p q s.conversion_paths e))
]
