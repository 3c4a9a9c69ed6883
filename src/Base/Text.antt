-- ===== src/Base/Text.antt =====
-- `std::string` as the source uses it: a sequence of characters, by position. (The source splits at
-- ASCII characters only, so positions may count characters for bytes.)
use Prim.Native.Char.{code}
use Prim.Native.String.{String}
use Prim.Native.Nat.{ℕ, zero, suc, ◌+◌, ◌-◌}
use mathlib.Core.Path.{◌≡◌, ap, ◌∙◌}
use mathlib.Core.Bool.{Bool, true, false}
use mathlib.Core.Option.{Option, none, some}
use native.Mathlib.Omega.{arith}
use forward_epics_to_kafka.Base.Tests.{◌==◌, if◌then◌else◌}

abbrev pub size : String → ℕ
size String.[] = 0
size (String.◌∷◌ c s) = suc (size s)

abbrev pub is_empty : String → Bool
is_empty String.[] = true
is_empty (String.◌∷◌ c s) = false

abbrev pub take_text : ℕ → String → String
take_text zero s = String.[]
take_text (suc n) String.[] = String.[]
take_text (suc n) (String.◌∷◌ c s) = String.◌∷◌ c (take_text n s)

abbrev pub drop_text : ℕ → String → String
drop_text zero s = s
drop_text (suc n) String.[] = String.[]
drop_text (suc n) (String.◌∷◌ c s) = drop_text n s

-- `s.substr(i, n)` for `i` within the string.
abbrev pub substr : String → ℕ → ℕ → String
substr s i n = take_text n (drop_text i s)

abbrev pub shifted : ℕ → Option ℕ → Option ℕ
shifted n none = none
shifted n (some k) = some (n + k)

abbrev pub index_of : ℕ → String → Option ℕ
index_of c String.[] = none
index_of c (String.◌∷◌ x s) = if code x == c then some 0 else shifted 1 (index_of c s)

-- `s.find(c, i)`.
abbrev pub find_char : ℕ → String → ℕ → Option ℕ
find_char c s i = shifted i (index_of c (drop_text i s))

pub drop_text-drop_text : (i k : ℕ) (s : String) → drop_text k (drop_text i s) ≡ drop_text (i + k) s
drop_text-drop_text zero k s = let e : k ≡ 0 + k = omega arith in ap (λ n. drop_text n s) e
drop_text-drop_text (suc i) zero s =
    let e : suc i ≡ suc i + 0 = omega arith in ap (λ n. drop_text n s) e
drop_text-drop_text (suc i) (suc k) String.[] =
    let e : suc (i + suc k) ≡ suc i + suc k = omega arith in ap (λ n. drop_text n String.[]) e
drop_text-drop_text (suc i) (suc k) (String.◌∷◌ c s) =
    let e : suc (i + suc k) ≡ suc i + suc k = omega arith in
    drop_text-drop_text i (suc k) s ∙ ap (λ n. drop_text n (String.◌∷◌ c s)) e

pub size-drop_text : (i : ℕ) (s : String) → size (drop_text i s) ≡ size s - i
size-drop_text zero s = omega arith
size-drop_text (suc i) String.[] = omega arith
size-drop_text (suc i) (String.◌∷◌ c s) = omega (arith, size-drop_text i s)
