-- ===== src/RangeSet.antt =====
-- src/RangeSet.h: the text of a set of ranges. A range is given by the texts of its ends, in the order
-- of `std::set`.
use Prim.Native.String.{◌++◌ as append_text}
use forward_epics_to_kafka.Base.{
  ℕ, suc, ◌+◌, ◌≤◌, ◌≡◌, refl, ap, String, false, List, [], ◌∷◌, length, ltb, ◌==◌, if◌then◌else◌,
  arith,
}

unfoldable pub size : List (String × String) → ℕ
size set = length set

abbrev pub range_text : String × String → String
range_text (a, b) = append_text "[" (append_text a (append_text ", " (append_text b "]")))

abbrev pub separated : ℕ → String → String
separated i text = if i == 0 then text else append_text ", " text

-- The loop, from the i-th element on, in front of the last bracket.
unfoldable pub ranges : ℕ → List (String × String) → String
ranges i [] = "]"
ranges i (x ∷ xs) =
    let rest = ranges (suc i) xs in
    separated i (append_text (range_text x) (if ltb 100 (suc i) then " ...]" else rest))

unfoldable pub to_string : List (String × String) → String
unfolding ranges
to_string set = append_text "[" (ranges 0 set)

-- The text without a limit.
abbrev pub all_ranges : ℕ → List (String × String) → String
all_ranges i [] = "]"
all_ranges i (x ∷ xs) = separated i (append_text (range_text x) (all_ranges (suc i) xs))

ranges_lem :
    (i : ℕ) (xs : List (String × String)) → i + length xs ≤ 100 → ranges i xs ≡ all_ranges i xs
unfolding ranges
ranges_lem i [] h = refl
ranges_lem i (x ∷ xs) h =
    let few : ltb 100 (suc i) ≡ false = ground (arith, h) in
    rw few (
      ap (λ t. separated i (append_text (range_text x) t))
        (ranges_lem (suc i) xs (omega (arith, h))))

-- A set of at most 100 ranges is printed whole. (The 101st ends the text with dots, even where it is the
-- last.)
to_string_lem :
    (set : List (String × String))
    → size set ≤ 100
    → to_string set ≡ append_text "[" (all_ranges 0 set)
unfolding to_string size
to_string_lem set h = ap (append_text "[") (ranges_lem 0 set (omega (arith, h)))
