-- ===== src/MainOpt/Levels.antt =====
-- The levels of the logger, by their names and numbers.
use forward_epics_to_kafka.Base.{
  ℕ, zero, suc, ◌<◌, ◌≡◌, ◌≢◌, refl, String, true, false, List, [], ◌∷◌, some, none, find_if, ok,
  err, logic_error, ◌⊎◌, inl, inr, arith, Option-cases, Bool-cases, leb, eq_iff, ap, sym, subst,
  cons_inj,
}
use forward_epics_to_kafka.Base.Int.{pos, negsuc}
use forward_epics_to_kafka.MainOpt.{
  Number, integer, invalid_argument, out_of_range, level_map, has_key, parse_log_level,
}

-- The name of a level, as the help text of the option orders them: 0 is `Trace`.
abbrev pub level_name : ℕ → String
level_name zero = "Trace"
level_name (suc zero) = "Debug"
level_name (suc (suc zero)) = "Info"
level_name (suc (suc (suc zero))) = "Warning"
level_name (suc (suc (suc (suc zero)))) = "Error"
level_name _ = "Critical"

-- A text stands for a level by its name, or, if it is the name of none, by its number.
pub data Means (stoi : String → Number) (s : String) (n : ℕ) : Type 0 where
  by_name : n < 6 → s ≡ level_name n → Means stoi s n
  as_number :
      n < 6 → ((k : ℕ) → k < 6 → s ≢ level_name k) → stoi s ≡ integer (pos n) → Means stoi s n

found :
    (s k : String) (n : ℕ)
    → find_if (has_key s) level_map ≡ some (k, n)
    → (n < 6) × (s ≡ level_name n)
unfolding level_map
found s k n e = ground (
  arith,
  e,
  eq_iff "Critical" s,
  eq_iff "Error" s,
  eq_iff "Warning" s,
  eq_iff "Info" s,
  eq_iff "Debug" s,
  eq_iff "Trace" s,
)

-- The table has each name once, with its number.
level_name_found :
    (k : ℕ) → k < 6 → find_if (has_key (level_name k)) level_map ≡ some (level_name k, k)
unfolding level_map
level_name_found zero h = refl
level_name_found (suc zero) h = refl
level_name_found (suc (suc zero)) h = refl
level_name_found (suc (suc (suc zero))) h = refl
level_name_found (suc (suc (suc (suc zero)))) h = refl
level_name_found (suc (suc (suc (suc (suc zero))))) h = refl
level_name_found (suc (suc (suc (suc (suc (suc k)))))) h = absurd (omega (arith, h))

missing : (s : String) → find_if (has_key s) level_map ≡ none → (k : ℕ) → k < 6 → s ≢ level_name k
missing s e k h same =
    let again = ap (λ t. find_if (has_key t) level_map) same in
    let known = level_name_found k h in cc

abbrev pub Outcome : (String → Number) → List String → ℕ → Type 0
Outcome stoi rs level =
    ((s : String) × (n : ℕ) × (rs ≡ s ∷ [])
      × Means stoi s n
      × (parse_log_level stoi rs level ≡ (n, ok true)))
    ⊎ (((s : String) (n : ℕ) → rs ≡ s ∷ [] → ¬ Means stoi s n)
        × (parse_log_level stoi rs level ≡ (level, ok false)))
    ⊎ ((s : String) × (rs ≡ s ∷ [])
        × ((k : ℕ) → k < 6 → s ≢ level_name k)
        × (stoi s ≡ out_of_range)
        × (parse_log_level stoi rs level ≡ (level, err (logic_error "stoi"))))

no_meaning :
    (stoi : String → Number) (s : String)
    → ((k : ℕ) → k < 6 → s ≢ level_name k)
    → ((k : ℕ) → k < 6 → stoi s ≢ integer (pos k))
    → (n : ℕ) → ¬ Means stoi s n
no_meaning stoi s a b n (by_name h e) = a n h e
no_meaning stoi s a b n (as_number h c e) = b n h e

no_meaning_alone :
    (stoi : String → Number) (s : String)
    → find_if (has_key s) level_map ≡ none
    → ((k : ℕ) → k < 6 → stoi s ≢ integer (pos k))
    → (t : String) (n : ℕ) → s ∷ [] ≡ t ∷ []
    → ¬ Means stoi t n
no_meaning_alone stoi s e b t n same m =
    no_meaning stoi s (missing s e) b n
      (subst (λ x. Means stoi x n) (sym (cons_inj s t [] [] same).0) m)

-- A name that is not in the table, by what `stoi` makes of it.
by_number :
    (stoi : String → Number) (s : String) (level : ℕ) (x : Number)
    → find_if (has_key s) level_map ≡ none
    → stoi s ≡ x
    → Outcome stoi (s ∷ []) level
unfolding parse_log_level
by_number stoi s level (integer (pos n)) e f = elim (Bool-cases (leb n 5)) [
  | inl small ↦
      let h : n < 6 = ground (arith, small) in
      inl (
        s,
        n,
        refl,
        as_number h (missing s e) f,
        rw (e, parse_log_level) (rw (f, parse_log_level) (rw small refl)),
      )
  | inr big ↦
      let h : 5 < n = ground (arith, big) in
      inr (
        inl (
          no_meaning_alone stoi s e (λ k l g. ground (arith, h, l, f, g)),
          rw (e, parse_log_level) (rw (f, parse_log_level) (rw big refl)),
        ))
]
by_number stoi s level (integer (negsuc n)) e f = inr (
    inl (
      no_meaning_alone stoi s e (λ k l g. ground (arith, f, g)),
      rw (e, parse_log_level) (rw (f, parse_log_level) refl),
    ))
by_number stoi s level invalid_argument e f = inr (
    inl (
      no_meaning_alone stoi s e (λ k l g. ground (arith, f, g)),
      rw (e, parse_log_level) (rw (f, parse_log_level) refl),
    ))
by_number stoi s level out_of_range e f =
    inr (inr (s, refl, missing s e, f, rw (e, parse_log_level) (rw (f, parse_log_level) refl)))

-- Given one text that means a level, the level is set to it; given one that names
-- none and whose number does not fit an `int`, the exception goes on; given anything else the answer is no. Except in the first
-- case the level stays what it was.
pub parse_log_level_lem :
    (stoi : String → Number) (rs : List String) (level : ℕ) → Outcome stoi rs level
unfolding parse_log_level
parse_log_level_lem stoi [] level = inr (inl (λ s n e. ground (arith, e), refl))
parse_log_level_lem stoi (a ∷ b ∷ rs) level = inr (inl (λ s n e. ground (arith, e), refl))
parse_log_level_lem stoi (s ∷ []) level = elim (Option-cases (find_if (has_key s) level_map)) [
  | inl e ↦ by_number stoi s level (stoi s) e refl
  | inr ((k, n), e) ↦
      let (h, same) = found s k n e in
      inl (s, n, refl, by_name h same, rw (e, parse_log_level) refl)
]
