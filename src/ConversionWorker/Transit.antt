-- ===== src/ConversionWorker/Transit.antt =====
-- What the counters `transit` of the conversion paths count: the packets that name their stream.
use forward_epics_to_kafka.Base.{
  ℕ, suc, ◌+◌, ◌<◌, ◌≡◌, refl, ◌∙◌, none, some, List, [], ◌∷◌, ◌++◌, All, arith, ◌==◌,
  if◌then◌else◌,
}
use forward_epics_to_kafka.Stream.Fill.{ConversionWorkPacket}
use forward_epics_to_kafka.Stream.Fill.Batches.{batch, batches, All-implies}
use forward_epics_to_kafka.Stream.Fill.Mark.{times}

times_pos : (ps : List ℕ) → All (λ p. 0 < times p ps) ps
times_pos [] = tt
times_pos (q ∷ ps) = (ground arith, All-implies ps (λ p h. ground arith) (times_pos ps))

module _ {U : Type 0} where
  -- The packets of a path that name their stream, and all packets of a path.
  abbrev pub tagged : ℕ → List (ConversionWorkPacket U) → ℕ
  tagged p [] = 0
  tagged p (k ∷ ks) = elim k.stream [
    | none ↦ tagged p ks
    | some _ ↦ if p == k.path then suc (tagged p ks) else tagged p ks
  ]

  abbrev pub of_path : ℕ → List (ConversionWorkPacket U) → ℕ
  of_path p [] = 0
  of_path p (k ∷ ks) = if p == k.path then suc (of_path p ks) else of_path p ks

  -- Behind each packet that names no stream waits one of the same path that does.
  abbrev pub LastTagged : List (ConversionWorkPacket U) → Type 0
  LastTagged [] = Unit
  LastTagged (k ∷ ks) = (k.stream ≡ none → 0 < tagged k.path ks) × LastTagged ks

  pub tagged-append :
      (p : ℕ) (ks ls : List (ConversionWorkPacket U))
      → tagged p (ks ++ ls) ≡ tagged p ks + tagged p ls
  tagged-append p [] ls = omega arith
  tagged-append p (k ∷ ks) ls = ground (arith, tagged-append p ks ls)

  pub LastTagged-append :
      (ks ls : List (ConversionWorkPacket U))
      → LastTagged ks
      → LastTagged ls
      → LastTagged (ks ++ ls)
  LastTagged-append [] ls h k = k
  LastTagged-append (x ∷ ks) ls h k =
      (λ e. omega (arith, h.0 e, tagged-append x.path ks ls), LastTagged-append ks ls h.1 k)

  -- A path none of whose packets is counted has no packet left.
  pub of_path_untagged :
      (p : ℕ) (ks : List (ConversionWorkPacket U))
      → LastTagged ks
      → tagged p ks ≡ 0
      → of_path p ks ≡ 0
  of_path_untagged p [] h e = refl
  of_path_untagged p (k ∷ ks) h e = ground (arith, of_path_untagged p ks h.1, h.0)

  tagged-batch : (this p : ℕ) (ps : List ℕ) (u : U) → tagged p (batch (some this) ps u) ≡ times p ps
  tagged-batch this p [] u = refl
  tagged-batch this p (q ∷ ps) u = ground (arith, tagged-batch this p ps u)

  tagged-plain : (p : ℕ) (ps : List ℕ) (u : U) → tagged p (batch none ps u) ≡ 0
  tagged-plain p [] u = refl
  tagged-plain p (q ∷ ps) u = tagged-plain p ps u

  -- Only the packets of the last update count.
  pub tagged-batches :
      (this p : ℕ) (ps : List ℕ) (u : U) (us : List U)
      → tagged p (batches this ps (u ∷ us)) ≡ times p ps
  tagged-batches this p ps u [] = tagged-batch this p ps u
  tagged-batches this p ps u (v ∷ us) =
      tagged-append p (batch none ps u) (batches this ps (v ∷ us))
      ∙ omega (arith, tagged-plain p ps u, tagged-batches this p ps v us)

  LastTagged-batch : (this : ℕ) (ps : List ℕ) (u : U) → LastTagged (batch (some this) ps u)
  LastTagged-batch this [] u = tt
  LastTagged-batch this (q ∷ ps) u = (λ e. cc e, LastTagged-batch this ps u)

  LastTagged-plain :
      (ps : List ℕ) (u : U) (ks : List (ConversionWorkPacket U))
      → All (λ q. 0 < tagged q ks) ps
      → LastTagged ks
      → LastTagged (batch none ps u ++ ks)
  LastTagged-plain [] u ks c h = h
  LastTagged-plain (q ∷ ps) u ks c h = (
    λ _. omega (arith, c.0, tagged-append q (batch none ps u) ks),
    LastTagged-plain ps u ks c.1 h,
  )

  -- The packets of one filling: the last one of each path names the stream.
  pub batches-LastTagged : (this : ℕ) (ps : List ℕ) (us : List U) → LastTagged (batches this ps us)
  batches-LastTagged this ps [] = tt
  batches-LastTagged this ps (u ∷ []) = LastTagged-batch this ps u
  batches-LastTagged this ps (u ∷ v ∷ us) =
      LastTagged-plain ps u (batches this ps (v ∷ us))
        (All-implies ps (λ p h. omega (arith, h, tagged-batches this p ps v us)) (times_pos ps))
        (batches-LastTagged this ps (v ∷ us))
