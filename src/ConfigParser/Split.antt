-- ===== src/ConfigParser/Split.antt =====
-- The list of brokers: `split` and `ConfigParser::setBrokers`.
use Prim.Native.Char.{Char, code}
use forward_epics_to_kafka.Base.{
  ℕ, zero, suc, ◌+◌, ◌-◌, ◌<◌, ◌≤◌, ◌≡◌, refl, sym, ap, ◌∙◌, String, Option, none, some, List, [],
  ◌∷◌, ◌++◌, Bool, true, false, not, arith, ◌==◌, ltb, lt→ltb, ltb→lt, Exception, ok, err,
  if◌then◌else◌, size, is_empty, take_text, drop_text, substr, index_of, find_char,
  drop_text-drop_text, size-drop_text, keep, inl, inr, Bool-cases, Option-cases, append_assoc,
  append-nil,
}
use forward_epics_to_kafka.Uri.{Uri, UriLibrary, of_string}
use forward_epics_to_kafka.ConfigParser.{ConfigSettings}

-- The `while (true)` of `split`: `i1` and `ret` are its variables, the first argument is fuel.
pub split_loop : ℕ → String → ℕ → List String → Option (List String)
split_loop zero s i1 ret = none
split_loop (suc f) s i1 ret = elim (find_char b',' s i1) [
  | none ↦ some (if size s == i1 then ret else ret ++ drop_text i1 s ∷ [])
  | some i2 ↦
      let ret' = if ltb i1 i2 then ret ++ substr s i1 (i2 - i1) ∷ [] else ret in
      split_loop f s (i2 + 1) ret'
]

-- Each round passes a comma.
unfoldable pub split : String → Option (List String)
unfolding split_loop
split s = split_loop (size s + 1) s 0 []

-- The text between commas, empty pieces included.
abbrev pub prepend : Char → List String → List String
prepend c [] = String.◌∷◌ c String.[] ∷ []
prepend c (p ∷ ps) = String.◌∷◌ c p ∷ ps

abbrev pub pieces : String → List String
pieces String.[] = String.[] ∷ []
pieces (String.◌∷◌ c s) = if code c == b',' then String.[] ∷ pieces s else prepend c (pieces s)

pieces-none : (s : String) → index_of b',' s ≡ none → pieces s ≡ s ∷ []
pieces-none String.[] e = refl
pieces-none (String.◌∷◌ c s) e = elim (Bool-cases (code c == b',')) [
  | inl comma ↦ cc (rw comma at e)
  | inr other ↦ elim (Option-cases (index_of b',' s)) [
    | inl missing ↦ rw (other, pieces-none s missing)
    | inr (k, found) ↦ cc (rw (other, found) at e)
  ]
]

pieces-some :
    (s : String) (k : ℕ)
    → index_of b',' s ≡ some k
    → (pieces s ≡ take_text k s ∷ pieces (drop_text (suc k) s)) × (k < size s)
pieces-some String.[] k e = cc
pieces-some (String.◌∷◌ c s) k e = elim (Bool-cases (code c == b',')) [
  | inl comma ↦ let z : 0 ≡ k = ground (arith, rw comma at e) in rw (← z) (rw comma, omega arith)
  | inr other ↦ elim (Option-cases (index_of b',' s)) [
    | inl missing ↦ cc (rw (other, missing) at e)
    | inr (j, found) ↦
        let z : suc j ≡ k = ground (arith, rw (other, found) at e) in
        let (cut, lt) = pieces-some s j found in rw (← z) (rw other (rw cut), omega arith)
  ]
]

abbrev pub non_empty : String → Bool
non_empty s = not (is_empty s)

non_empty_take : (k : ℕ) (s : String) → k < size s → non_empty (take_text k s) ≡ ltb 0 k
non_empty_take zero s h = refl
non_empty_take (suc k) String.[] h = absurd (omega arith)
non_empty_take (suc k) (String.◌∷◌ c s) h = sym (lt→ltb 0 (suc k) (omega arith))

non_empty-size : (s : String) → non_empty s ≡ not (size s == 0)
non_empty-size String.[] = refl
non_empty-size (String.◌∷◌ c s) = ground arith

last_piece :
    (s : String) (i : ℕ) (ret : List String)
    → i ≤ size s
    → (if size s == i then ret else ret ++ drop_text i s ∷ [])
      ≡ ret ++ keep non_empty (drop_text i s ∷ [])
last_piece s i ret h = elim (Bool-cases (size s == i)) [
  | inl at_end ↦
      let z : non_empty (drop_text i s) ≡ false =
        non_empty-size (drop_text i s) ∙ ground (arith, size-drop_text i s) in
      rw at_end (rw z (sym (append-nil ret)))
  | inr more ↦
      let z : non_empty (drop_text i s) ≡ true =
        non_empty-size (drop_text i s) ∙ ground (arith, size-drop_text i s) in
      rw more (rw z)
]

-- What one round adds.
round_piece :
    (s : String) (i k : ℕ) (ret rest : List String)
    → k < size (drop_text i s)
    → (if ltb i (i + k) then ret ++ substr s i (i + k - i) ∷ [] else ret) ++ keep non_empty rest
      ≡ ret ++ keep non_empty (take_text k (drop_text i s) ∷ rest)
round_piece s i k ret rest h =
    let e : i + k - i ≡ k = omega arith in
    let z = non_empty_take k (drop_text i s) h in
    elim (Bool-cases (ltb 0 k)) [
      | inl some_text ↦
          let t : ltb i (i + k) ≡ true = ground (arith, ltb→lt 0 k some_text) in
          rw t (rw (z ∙ some_text) (rw e (append_assoc ret (take_text k (drop_text i s) ∷ []) _)))
      | inr no_text ↦ let t : ltb i (i + k) ≡ false = ground arith in rw t (rw (z ∙ no_text))
    ]

split_loop_lem :
    (f : ℕ) (s : String) (i : ℕ) (ret : List String)
    → i ≤ size s
    → size s - i < f
    → split_loop f s i ret ≡ some (ret ++ keep non_empty (pieces (drop_text i s)))
unfolding split_loop
split_loop_lem zero s i ret h lt = elim lt [ ]
split_loop_lem (suc f) s i ret h lt = elim (Option-cases (index_of b',' (drop_text i s))) [
  | inl e ↦ rw (e, split_loop) (rw (pieces-none _ e) (ap some (last_piece s i ret h)))
  | inr (k, e) ↦
      let (cut, within) = pieces-some (drop_text i s) k e in
      let room : i + k + 1 ≤ size s = omega (arith, within, size-drop_text i s) in
      let n : i + suc k ≡ i + k + 1 = omega arith in
      let tail = drop_text-drop_text i (suc k) s ∙ ap (λ m. drop_text m s) n in
      rw (e, split_loop)
        (split_loop_lem f s (i + k + 1) _ room (omega arith)
          ∙ ap some (
              round_piece s i k ret (pieces (drop_text (i + k + 1) s)) within
              ∙ ap (λ ps. ret ++ keep non_empty (take_text k (drop_text i s) ∷ ps))
                  (ap pieces (sym tail))
              ∙ ap (λ ps. ret ++ keep non_empty ps) (sym cut)))
]

-- `split` ends, and gives the pieces between the commas that are not empty, in order.
pub split-pieces : (s : String) → split s ≡ some (keep non_empty (pieces s))
unfolding split
split-pieces s = split_loop_lem (size s + 1) s 0 [] (omega arith) (omega arith)

module _ (lib : UriLibrary) where
  -- The `for` of `setBrokers`; an exception leaves the brokers read before it.
  pub push_brokers : List String → List Uri → List Uri × Option Exception
  push_brokers [] brokers = (brokers, none)
  push_brokers (x ∷ xs) brokers = elim (of_string lib x) [
    | err e ↦ (brokers, some e)
    | ok u ↦ push_brokers xs (brokers ++ u ∷ [])
  ]

  -- `none`: out of fuel, which `split-pieces` excludes.
  unfoldable pub set_brokers : String → ConfigSettings → Option (ConfigSettings × Option Exception)
  unfolding push_brokers
  set_brokers s settings = elim (split s) [
    | none ↦ none
    | some parts ↦
        let (brokers, e) = push_brokers parts [] in some (record settings { brokers = brokers }, e)
  ]
