-- ===== src/Prelude/Strings.antt =====
-- What the code uses of Go's package strings, and the quoting of `%q`. Spaces are those of
-- `unicode.IsSpace`; `to_lower` knows the ASCII letters, and `quote` escapes quotes and backslashes.
use Prim.Native.Nat.{ℕ}
use Prim.Native.Char.{Char, code}
use Prim.Native.String.{String, ◌++◌ as ◌<>◌}
use mathlib.Core.Path.{◌≡◌, refl, ap, ◌∙◌}
use mathlib.Core.Bool.{Bool, false, ◌||◌, ◌&&◌}
use mathlib.Core.Logic.{inl, inr}
use primitive_box.Prelude.Tests.{leb, ◌==◌, if◌then◌else◌, Bool-cases}

-- `unicode.IsSpace`
unfoldable pub is_space : ℕ → Bool
is_space c =
    (leb 9 c && leb c 13)
    || (c == 32)
    || (c == 133)
    || (c == 160)
    || (c == 5760)
    || (leb 8192 c && leb c 8202)
    || (c == 8232)
    || (c == 8233)
    || (c == 8239)
    || (c == 8287)
    || (c == 12288)

unfoldable pub trim_left : String → String
trim_left String.[] = ""
trim_left (String.◌∷◌ c s) =
    let rest = trim_left s in if is_space (code c) then rest else String.◌∷◌ c s

-- A character before what is left of the text behind it.
unfoldable pub kept_before : Char → String → String
kept_before c String.[] = if is_space (code c) then "" else String.◌∷◌ c ""
kept_before c (String.◌∷◌ d t) = String.◌∷◌ c (String.◌∷◌ d t)

unfoldable pub trim_right : String → String
trim_right String.[] = ""
trim_right (String.◌∷◌ c s) = kept_before c (trim_right s)

-- `strings.TrimSpace`
unfoldable pub trim_space : String → String
trim_space s = trim_right (trim_left s)

-- The second list at the place where the first has `c`.
lower_by : String → String → Char → Char
lower_by String.[] ls c = c
lower_by (String.◌∷◌ u us) String.[] c = c
lower_by (String.◌∷◌ u us) (String.◌∷◌ l ls) c =
    let rest = lower_by us ls c in if code u == code c then l else rest

-- `strings.ToLower`
unfoldable pub to_lower : String → String
unfolding lower_by
to_lower String.[] = ""
to_lower (String.◌∷◌ c s) =
    String.◌∷◌ (lower_by "ABCDEFGHIJKLMNOPQRSTUVWXYZ" "abcdefghijklmnopqrstuvwxyz" c) (to_lower s)

escaped : String → String
escaped String.[] = ""
escaped (String.◌∷◌ c s) =
    let rest = escaped s in
    if (code c == 34) || (code c == 92) then "\\" <> String.◌∷◌ c rest else String.◌∷◌ c rest

-- `%q`
unfoldable pub quote : String → String
unfolding escaped
quote s = "\"" <> escaped s <> "\""

-- The text begins with no space.
abbrev IsTight : String → Type 0
IsTight String.[] = Unit
IsTight (String.◌∷◌ c s) = is_space (code c) ≡ false

trim_left-IsTight : (s : String) → IsTight (trim_left s)
unfolding trim_left
trim_left-IsTight String.[] = tt
trim_left-IsTight (String.◌∷◌ c s) = elim (Bool-cases (is_space (code c))) [
  | inl space ↦ rw space (trim_left-IsTight s)
  | inr solid ↦ rw solid solid
]

IsTight-trim_left : (s : String) → IsTight s → trim_left s ≡ s
unfolding trim_left
IsTight-trim_left String.[] h = refl
IsTight-trim_left (String.◌∷◌ c s) h = rw h refl

kept_before-IsTight :
    (c : Char) (s : String) → is_space (code c) ≡ false → IsTight (kept_before c s)
unfolding kept_before
kept_before-IsTight c String.[] h = rw h h
kept_before-IsTight c (String.◌∷◌ d t) h = h

trim_right-IsTight : (s : String) → IsTight s → IsTight (trim_right s)
unfolding trim_right
trim_right-IsTight String.[] h = tt
trim_right-IsTight (String.◌∷◌ c s) h = kept_before-IsTight c (trim_right s) h

trim_right-kept_before :
    (c : Char) (s : String) → trim_right s ≡ s → trim_right (kept_before c s) ≡ kept_before c s
unfolding trim_right kept_before
trim_right-kept_before c String.[] h = elim (Bool-cases (is_space (code c))) [
  | inl space ↦ rw space refl
  | inr solid ↦ rw solid (rw solid refl)
]
trim_right-kept_before c (String.◌∷◌ d t) h = ap (kept_before c) h

trim_right_idem : (s : String) → trim_right (trim_right s) ≡ trim_right s
unfolding trim_right
trim_right_idem String.[] = refl
trim_right_idem (String.◌∷◌ c s) = trim_right-kept_before c (trim_right s) (trim_right_idem s)

-- A text that was trimmed is not changed by trimming it again.
pub trim_space_idem : (s : String) → trim_space (trim_space s) ≡ trim_space s
unfolding trim_space
trim_space_idem s =
    ap trim_right (
      IsTight-trim_left (trim_right (trim_left s))
        (trim_right-IsTight (trim_left s) (trim_left-IsTight s)))
    ∙ trim_right_idem (trim_left s)

-- The words of a declaration that have no space about them.
pub trim_space_words :
    (trim_space "" ≡ "")
    × (trim_space "primitive" ≡ "primitive")
    × (trim_space "command" ≡ "command")
    × (trim_space "none" ≡ "none")
unfolding trim_space trim_left trim_right kept_before is_space
trim_space_words = (refl, refl, refl, refl)
