-- ===== src/Prelude/Texts.antt =====
-- Text as the bytes of a Go string, and what the commands use of Go's package `strings`.
use Prim.Native.Nat.{ℕ, zero, suc, ◌+◌, ◌%◌, ◌/◌}
use Prim.Native.Char.{code}
use Prim.Native.String.{String}
use mathlib.Core.Path.{◌≡◌, refl}
use mathlib.Core.Logic.{◌↔◌}
use mathlib.Core.Bool.{Bool, true, false, ◌&&◌}
use mathlib.Core.Option
use mathlib.Core.Option.{Option, none, some}
use mathlib.Core.List.{List, [], ◌∷◌, ◌++◌, map, reverse}
use native.Mathlib.Omega.{arith}
use ci_infra_gardener.Prelude.Tests.{eqb, ltb, if◌then◌else◌, is_some, or_else}
use ci_infra_gardener.Prelude.Lists.{any}

abbrev pub Text : Type 0
Text = List ℕ

-- The bytes of an ASCII literal.
abbrev pub codes : String → Text
codes String.[] = []
codes (String.◌∷◌ c s) = code c ∷ codes s

infix 50 ◌==◌
unfoldable pub ◌==◌ : Text → Text → Bool
[] == [] = true
[] == (d ∷ t) = false
(c ∷ s) == [] = false
(c ∷ s) == (d ∷ t) = eqb c d && s == t

pub ==_iff : (s t : Text) → (s == t ≡ true) ↔ (s ≡ t)
unfolding ◌==◌
==_iff [] [] = (λ _. refl, λ _. refl)
==_iff [] (d ∷ t) = ground arith
==_iff (c ∷ s) [] = ground arith
==_iff (c ∷ s) (d ∷ t) = (λ h. ground (arith, ==_iff s t), λ h. ground (arith, ==_iff s t))

pub ==_refl : (s : Text) → s == s ≡ true
==_refl s = (==_iff s s).1 refl

-- `<` on strings: bytewise, a proper prefix first.
unfoldable pub text_lt : Text → Text → Bool
text_lt s [] = false
text_lt [] (d ∷ t) = true
text_lt (c ∷ s) (d ∷ t) = if ltb c d then true else eqb c d && text_lt s t

-- strings.CutPrefix: what follows the prefix.
unfoldable pub cut_prefix : Text → Text → Option Text
cut_prefix [] s = some s
cut_prefix (c ∷ p) [] = none
cut_prefix (c ∷ p) (d ∷ s) = let rest = cut_prefix p s in if eqb c d then rest else none

-- strings.HasPrefix(s, p)
unfoldable pub has_prefix : Text → Text → Bool
unfolding cut_prefix
has_prefix s p = is_some (cut_prefix p s)

-- strings.TrimPrefix(s, p)
unfoldable pub trim_prefix : Text → Text → Text
unfolding cut_prefix
trim_prefix s p = or_else (cut_prefix p s) s

-- strings.TrimLeft(s, " ") and strings.Trim(s, " ")
unfoldable pub trim_left : Text → Text
trim_left [] = []
trim_left (c ∷ s) = let rest = trim_left s in if eqb c b' ' then rest else c ∷ s

unfoldable pub trim : Text → Text
unfolding trim_left
trim s = reverse (trim_left (reverse (trim_left s)))

-- strings.Index(s, t) and strings.LastIndex(s, t), with `none` for -1
unfoldable pub index? : Text → Text → Option ℕ
unfolding has_prefix
index? [] t = if has_prefix [] t then some 0 else none
index? (c ∷ s) t =
    let rest = index? s t in if has_prefix (c ∷ s) t then some 0 else Option.map suc rest

unfoldable pub last_index? : Text → Text → Option ℕ
unfolding has_prefix
last_index? [] t = if has_prefix [] t then some 0 else none
last_index? (c ∷ s) t = elim (last_index? s t) [
  | some i ↦ some (suc i)
  | none ↦ if has_prefix (c ∷ s) t then some 0 else none
]

-- strings.ReplaceAll(s, a, b) for texts of one byte
unfoldable pub replace_byte : Text → ℕ → ℕ → Text
replace_byte s a b = map (λ c. if eqb c a then b else c) s

-- strings.Join(texts, sep)
unfoldable pub join : List Text → Text → Text
join [] sep = []
join (t ∷ ts) sep = elim ts [ [] ↦ t | _ ↦ t ++ (sep ++ join ts sep) ]

-- strings.Split(s, sep) for a separator of one byte: never empty, given by its first part and the others
unfoldable pub split_byte : ℕ → Text → Text × List Text
split_byte sep [] = ([], [])
split_byte sep (c ∷ s) =
    let (first, others) = split_byte sep s in
    if eqb c sep then ([], first ∷ others) else (c ∷ first, others)

unfoldable pub contains : List Text → Text → Bool
unfolding any
contains xs x = any (λ y. y == x) xs

pub cut_prefix_iff : (p s r : Text) → (cut_prefix p s ≡ some r) ↔ (s ≡ p ++ r)
unfolding cut_prefix
cut_prefix_iff [] s r = (λ h. ground arith, λ h. ground arith)
cut_prefix_iff (c ∷ p) [] r = (λ h. ground arith, λ h. ground arith)
cut_prefix_iff (c ∷ p) (d ∷ s) r =
    (λ h. ground (arith, cut_prefix_iff p s r), λ h. ground (arith, cut_prefix_iff p s r))

pub cut_prefix-append : (p s : Text) → cut_prefix p (p ++ s) ≡ some s
cut_prefix-append p s = (cut_prefix_iff p (p ++ s) s).1 refl

-- `%d` of a natural number. The fuel is the number and one more, and a digit is printed for each round.
unfoldable pub digits_from : (fuel n : ℕ) → Text → Text
digits_from zero n acc = acc
digits_from (suc fuel) n acc =
    let digit = b'0' + n % 10 in
    let rest = digits_from fuel (n / 10) (digit ∷ acc) in if ltb n 10 then digit ∷ acc else rest

unfoldable pub decimal : ℕ → Text
unfolding digits_from
decimal n = digits_from (suc n) n []
