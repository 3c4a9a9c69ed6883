-- ===== src/Stream/Fill/Batches.antt =====
-- What a filling queues, as lists: one packet for each path and update, and the addresses that the
-- packets get.
use forward_epics_to_kafka.Base.{
  ℕ, suc, ◌+◌, ◌-◌, ◌*◌, ◌<◌, ◌≤◌, ◌≡◌, refl, ap, Option, none, some, List, [], ◌∷◌, ◌++◌, map,
  length, leb, leb→le, if◌then◌else◌, All, Ascending, arith, inl, inr, Bool-cases, append-nil,
  append_assoc, sym, ◌∙◌,
}
use forward_epics_to_kafka.Stream.Fill.{ConversionWorkPacket}

-- One address for each element, from `n` on.
abbrev pub addresses {ℓ} : {A : Type ℓ} → ℕ → List A → List ℕ
addresses n [] = []
addresses n (x ∷ xs) = n ∷ addresses (suc n) xs

module _ {U : Type 0} where
  abbrev pub packet_of : Option ℕ → U → ℕ → ConversionWorkPacket U
  packet_of tag u p = record { update = u; path = p; stream = tag }

  -- The packets of one update.
  abbrev pub batch : Option ℕ → List ℕ → U → List (ConversionWorkPacket U)
  batch tag ps u = map (packet_of tag u) ps

  -- The packets of many, of which those of the last update name the stream.
  abbrev pub batches : ℕ → List ℕ → List U → List (ConversionWorkPacket U)
  batches this ps [] = []
  batches this ps (u ∷ []) = batch (some this) ps u
  batches this ps (u ∷ v ∷ us) = batch none ps u ++ batches this ps (v ∷ us)

  abbrev pub plain_batches : List ℕ → List U → List (ConversionWorkPacket U)
  plain_batches ps [] = []
  plain_batches ps (u ∷ us) = batch none ps u ++ plain_batches ps us

  -- The updates that a filling accepts: null pointers are skipped, and it stops where fewer than
  -- `k` of the `room` packets are left.
  abbrev pub accepted : ℕ → ℕ → List (Option U) → List U
  accepted k room [] = []
  accepted k room (none ∷ us) = if leb k room then accepted k room us else []
  accepted k room (some u ∷ us) = if leb k room then u ∷ accepted k (room - k) us else []

  abbrev pub left_over : ℕ → ℕ → List (Option U) → List (Option U)
  left_over k room [] = []
  left_over k room (none ∷ us) = if leb k room then left_over k room us else none ∷ us
  left_over k room (some u ∷ us) = if leb k room then left_over k (room - k) us else some u ∷ us

  pub length-accepted-le :
      (k room : ℕ) (us : List (Option U)) → length (accepted k room us) * k ≤ room
  length-accepted-le k room [] = omega arith
  length-accepted-le k room (none ∷ us) = ground (arith, length-accepted-le k room us)
  length-accepted-le k room (some u ∷ us) = elim (Bool-cases (leb k room)) [
    | inl fits ↦ rw fits (omega (arith, leb→le k room fits, length-accepted-le k (room - k) us))
    | inr full ↦ rw full (omega arith)
  ]

pub addresses_below {ℓ} :
    {A : Type ℓ} (n m : ℕ) (xs : List A) → n + length xs ≤ m → All (λ a. a < m) (addresses n xs)
addresses_below n m [] h = tt
addresses_below n m (x ∷ xs) h = (omega arith, addresses_below (suc n) m xs (omega arith))

pub map_agree {ℓ κ} :
    {A : Type ℓ} {B : Type κ} (f g : A → B) (xs : List A)
    → All (λ x. f x ≡ g x) xs
    → map f xs ≡ map g xs
map_agree f g [] h = refl
map_agree f g (x ∷ xs) h = cc (h.0, map_agree f g xs h.1)

pub All-implies {ℓ κ μ} :
    {A : Type ℓ} {P : A → Type κ} {Q : A → Type μ} (xs : List A)
    → ((x : A) → P x → Q x)
    → All P xs
    → All Q xs
All-implies [] f h = tt
All-implies (x ∷ xs) f h = (f x h.0, All-implies xs f h.1)

pub plain_batches-append :
    {U : Type 0} (ps : List ℕ) (us : List U) (u : U)
    → plain_batches ps (us ++ u ∷ []) ≡ plain_batches ps us ++ batch none ps u
plain_batches-append ps [] u = append-nil _
plain_batches-append ps (v ∷ us) u =
    ap (λ l. batch none ps v ++ l) (plain_batches-append ps us u)
    ∙ sym (append_assoc (batch none ps v) (plain_batches ps us) (batch none ps u))

pub addresses_above {ℓ} :
    {A : Type ℓ} (n m : ℕ) (xs : List A) → m ≤ n → All (λ a. m ≤ a) (addresses n xs)
addresses_above n m [] h = tt
addresses_above n m (x ∷ xs) h = (h, addresses_above (suc n) m xs (omega arith))

pub batches_last :
    {U : Type 0} (this : ℕ) (ps : List ℕ) (us : List U) (u : U)
    → batches this ps (us ++ u ∷ []) ≡ plain_batches ps us ++ batch (some this) ps u
batches_last this ps [] u = refl
batches_last this ps (v ∷ []) u =
    ap (λ l. l ++ batch (some this) ps u) (sym (append-nil (batch none ps v)))
batches_last this ps (v ∷ w ∷ us) u =
    ap (λ l. batch none ps v ++ l) (batches_last this ps (w ∷ us) u)
    ∙ sym (append_assoc (batch none ps v) (plain_batches ps (w ∷ us)) (batch (some this) ps u))

pub batches_no_path : {U : Type 0} (this : ℕ) (us : List U) → batches this [] us ≡ []
batches_no_path this [] = refl
batches_no_path this (u ∷ []) = refl
batches_no_path this (u ∷ v ∷ us) = batches_no_path this (v ∷ us)

pub plain_batches_no_path : {U : Type 0} (us : List U) → plain_batches [] us ≡ []
plain_batches_no_path [] = refl
plain_batches_no_path (u ∷ us) = plain_batches_no_path us

pub addresses-Ascending {ℓ} : {A : Type ℓ} (n : ℕ) (xs : List A) → Ascending (addresses n xs)
addresses-Ascending n [] = tt
addresses-Ascending n (x ∷ xs) =
    (addresses_above (suc n) (suc n) xs (omega arith), addresses-Ascending (suc n) xs)
