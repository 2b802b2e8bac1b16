-- ===== src/Base/Bytes.antt =====
-- Go strings as sequences of bytes, and what the program uses of the package `strings`.
mod Examples
use Prim.Native.Nat.{ℕ, zero, suc, ◌+◌, ◌-◌, ◌/◌, ◌%◌}
use Prim.Native.Char.{code}
use Prim.Native.String.{String}
use mathlib.Core.Path.{◌≡◌, refl}
use mathlib.Core.Logic.{◌↔◌}
use mathlib.Core.Bool.{Bool, true, false, ◌&&◌, ◌||◌}
use mathlib.Core.List.{List, [], ◌∷◌, ◌++◌}
use native.Mathlib.Omega.{arith}
use relvo.Base.Tests.{ltb, leb, ◌==◌, if◌then◌else◌}

abbrev pub Text : Type 0
Text = List ℕ

-- The bytes of an ASCII literal.
abbrev pub bytes : String → Text
bytes String.[] = []
bytes (String.◌∷◌ c s) = code c ∷ bytes s

unfoldable pub text_eq : Text → Text → Bool
text_eq [] [] = true
text_eq [] (y ∷ ys) = false
text_eq (x ∷ xs) [] = false
text_eq (x ∷ xs) (y ∷ ys) = (x == y) && text_eq xs ys

text_eq_refl : (s : Text) → text_eq s s ≡ true
unfolding text_eq
text_eq_refl [] = refl
text_eq_refl (x ∷ xs) = ground (arith, text_eq_refl xs)

text_eq→eq : (s t : Text) → text_eq s t ≡ true → s ≡ t
unfolding text_eq
text_eq→eq [] [] h = refl
text_eq→eq [] (y ∷ ys) h = cc
text_eq→eq (x ∷ xs) [] h = cc
text_eq→eq (x ∷ xs) (y ∷ ys) h = ground (arith, text_eq→eq xs ys)

pub text_eq_iff : (s t : Text) → (text_eq s t ≡ true) ↔ (s ≡ t)
text_eq_iff s t = (text_eq→eq s t, λ e. ground (arith, text_eq_refl s))

abbrev pub is_empty : Text → Bool
is_empty [] = true
is_empty (c ∷ s) = false

-- The bytes that a leading white-space rune takes, 0 if there is none (`unicode.IsSpace`).
space_width : Text → ℕ
space_width [] = 0
space_width (a ∷ s) = if (leb 9 a && leb a 13) || (a == 32) then 1 else elim s [
  | [] ↦ 0
  | b ∷ r ↦ if (a == 194) && ((b == 133) || (b == 160)) then 2 else elim r [
    | [] ↦ 0
    | c ∷ _ ↦
        if ((a == 225) && (b == 154) && (c == 128))
          || ((a == 226)
              && (b == 128)
              && ((leb 128 c && leb c 138) || (c == 168) || (c == 169) || (c == 175)))
          || ((a == 226) && (b == 129) && (c == 159))
          || ((a == 227) && (b == 128) && (c == 128))
        then 3
        else 0
  ]
]

-- The first argument counts the bytes of a white-space rune that are still to be passed.
trim_left : ℕ → Text → Text
unfolding space_width
trim_left k [] = []
trim_left (suc k) (c ∷ s) = trim_left k s
trim_left zero (c ∷ s) = elim (space_width (c ∷ s)) [ zero ↦ c ∷ s | suc k ↦ trim_left k s ]

-- `strings.TrimSpace(s) == ""`
unfoldable pub is_blank : Text → Bool
unfolding trim_left
is_blank s = is_empty (trim_left 0 s)

trim_right : Text → Text
unfolding is_blank
trim_right [] = []
trim_right (c ∷ s) = if is_blank (c ∷ s) then [] else c ∷ trim_right s

-- `strings.TrimSpace`
unfoldable pub trim_space : Text → Text
unfolding trim_left trim_right
trim_space s = trim_right (trim_left 0 s)

-- `strings.HasPrefix(s, p)`
abbrev pub has_prefix : Text → Text → Bool
has_prefix s [] = true
has_prefix [] (b ∷ p) = false
has_prefix (a ∷ s) (b ∷ p) = (a == b) && has_prefix s p

-- `strings.ReplaceAll(s, old, new)` for an `old` that is not empty: from the left, without overlap.
-- The first argument counts the bytes of an occurrence that are still to be passed.
abbrev replace_from : ℕ → ℕ → Text → Text → Text → Text
replace_from w k old new [] = []
replace_from w (suc k) old new (c ∷ s) = replace_from w k old new s
replace_from w zero old new (c ∷ s) = elim (has_prefix (c ∷ s) old) [
  | true ↦ new ++ replace_from w (w - 1) old new s
  | false ↦ c ∷ replace_from w zero old new s
]

size : Text → ℕ
size [] = 0
size (c ∷ s) = suc (size s)

pub replace_all : Text → Text → Text → Text
unfolding size
replace_all s old new = replace_from (size old) 0 old new s

-- Decimal digits, by fuel that bounds the number of them; `n` itself is enough.
digits_from : ℕ → ℕ → Text → Text
digits_from zero n out = out
digits_from (suc f) n out =
    let rest = digits_from f (n / 10) ((48 + n % 10) ∷ out) in
    if ltb n 10 then (48 + n) ∷ out else rest

-- `strconv.Itoa` at a number that is not negative
unfoldable pub decimal : ℕ → Text
unfolding digits_from
decimal n = digits_from (suc n) n []

-- `strings.ToUpper` and `strings.ToLower` at ASCII
abbrev pub upper : ℕ → ℕ
upper c = if leb 97 c && leb c 122 then c - 32 else c

abbrev pub to_upper : Text → Text
to_upper [] = []
to_upper (c ∷ s) = upper c ∷ to_upper s

-- `strings.Contains(s, p)`
pub contains : Text → Text → Bool
contains [] p = has_prefix [] p
contains (c ∷ s) p = has_prefix (c ∷ s) p || contains s p
