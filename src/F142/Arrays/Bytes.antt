-- ===== src/F142/Arrays/Bytes.antt =====
-- Bytes and the numbers that they stand for, the least significant byte first.
use forward_epics_to_kafka.Base.{
  ℕ, zero, suc, ◌+◌, ◌-◌, ◌*◌, ◌/◌, ◌%◌, ◌<◌, ◌≡◌, refl, ap, Bool, true, false, List, [], ◌∷◌, ◌++◌,
  length, length-append, All, ltb, if◌then◌else◌, arith,
}
use native.Mathlib.Nat.{mod-eq_of_lt}
use forward_epics_to_kafka.Base.Int.{ℤ, pos, negsuc}
use forward_epics_to_kafka.F142.Arrays.{take, drop, modulus, pattern_of, concat_map, mem_cpy}

abbrev pub little_endian : ℕ → ℕ → List ℕ
little_endian zero x = []
little_endian (suc w) x = x % 256 ∷ little_endian w (x / 256)

abbrev pub of_bytes : List ℕ → ℕ
of_bytes [] = 0
of_bytes (b ∷ bs) = b + 256 * of_bytes bs

-- So many elements of so many bytes.
abbrev pub chunks : ℕ → ℕ → List ℕ → List ℕ
chunks zero w bs = []
chunks (suc n) w bs = of_bytes (take w bs) ∷ chunks n w (drop w bs)

-- The number that a pattern stands for.
abbrev pub of_pattern : Bool → ℕ → ℕ → ℤ
of_pattern signed w x =
    if signed
    then (if ltb (2 * x) (modulus w) then pos x else negsuc (modulus w - 1 - x))
    else pos x

-- The range of a type of so many bytes.
abbrev pub Fits : Bool → ℕ → ℤ → Type 0
Fits true w (pos n) = 2 * n < modulus w
Fits true w (negsuc n) = 2 * n + 1 < modulus w
Fits false w (pos n) = n < modulus w
Fits false w (negsuc n) = modulus w < modulus w

of_bytes-little_endian : (w x : ℕ) → x < modulus w → of_bytes (little_endian w x) ≡ x
of_bytes-little_endian zero x h = omega arith
of_bytes-little_endian (suc w) x h = omega (arith, of_bytes-little_endian w (x / 256) (omega arith))

take_first : (w x : ℕ) (bs : List ℕ) → take w (little_endian w x ++ bs) ≡ little_endian w x
take_first zero x bs = refl
take_first (suc w) x bs = ap (λ l. x % 256 ∷ l) (take_first w (x / 256) bs)

drop_first : (w x : ℕ) (bs : List ℕ) → drop w (little_endian w x ++ bs) ≡ bs
drop_first zero x bs = refl
drop_first (suc w) x bs = drop_first w (x / 256) bs

-- What is stored element by element is read element by element.
pub chunks-concat_map :
    (w : ℕ) (xs : List ℕ)
    → All (λ x. x < modulus w) xs
    → chunks (length xs) w (concat_map (little_endian w) xs) ≡ xs
chunks-concat_map w [] h = refl
chunks-concat_map w (x ∷ xs) h = rw (take_first w x (concat_map (little_endian w) xs)) (
    rw (drop_first w x (concat_map (little_endian w) xs))
      (rw (of_bytes-little_endian w x h.0) (ap (λ l. x ∷ l) (chunks-concat_map w xs h.1))))

module _ (w : ℕ) where
  pub pattern_of-lt : (signed : Bool) (v : ℤ) → Fits signed w v → pattern_of w v < modulus w
  pattern_of-lt true (pos n) h = ground arith
  pattern_of-lt true (negsuc n) h = ground arith
  pattern_of-lt false (pos n) h = ground arith
  pattern_of-lt false (negsuc n) h = absurd (omega arith)

  pub of_pattern-pattern_of :
      (signed : Bool) (v : ℤ) → Fits signed w v → of_pattern signed w (pattern_of w v) ≡ v
  of_pattern-pattern_of true (pos n) h =
      let small : n < modulus w = omega arith in rw (mod-eq_of_lt small) (ground arith)
  of_pattern-pattern_of true (negsuc n) h =
      let small : n < modulus w = omega arith in rw (mod-eq_of_lt small) (ground arith)
  of_pattern-pattern_of false (pos n) h = ap pos (mod-eq_of_lt h)
  of_pattern-pattern_of false (negsuc n) h = absurd (omega arith)

length-little_endian : (w x : ℕ) → length (little_endian w x) ≡ w
length-little_endian zero x = refl
length-little_endian (suc w) x = ap suc (length-little_endian w (x / 256))

pub length-concat_map :
    (w : ℕ) (xs : List ℕ) → length (concat_map (little_endian w) xs) ≡ length xs * w
length-concat_map w [] = omega arith
length-concat_map w (x ∷ xs) = grind (
  arith,
  length-append (little_endian w x) (concat_map (little_endian w) xs),
  length-little_endian w x,
  length-concat_map w xs,
)

-- A copy of the whole replaces the whole.
pub mem_cpy_all :
    (n : ℕ) (destination source : List ℕ)
    → length source ≡ n
    → length destination ≡ n
    → mem_cpy destination source n ≡ source
unfolding mem_cpy
mem_cpy_all zero [] [] h k = refl
mem_cpy_all zero [] (y ∷ ys) h k = absurd (omega arith)
mem_cpy_all zero (x ∷ xs) ys h k = absurd (omega arith)
mem_cpy_all (suc n) [] ys h k = absurd (omega arith)
mem_cpy_all (suc n) (x ∷ xs) [] h k = absurd (omega arith)
mem_cpy_all (suc n) (x ∷ xs) (y ∷ ys) h k =
    ap (λ l. y ∷ l) (mem_cpy_all n xs ys (omega arith) (omega arith))
