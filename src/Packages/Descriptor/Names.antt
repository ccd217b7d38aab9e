-- ===== src/Packages/Descriptor/Names.antt =====
-- What the checks of names and paths in a Boxfile look for, said of the codes of a text.
use primitive_box.Prelude.{
  ℕ, ◌≤◌, ◌≡◌, refl, sym, ap, ◌∙◌, true, false, ◌&&◌, List, [], ◌∷◌, ◌++◌, length, All, ◌==◌, inl,
  inr, ◌⊎◌, ◌↔◌, arith, Bool-cases,
}
use primitive_box.Packages.Descriptor.{is_slug_code, all_codes, is_slug, has_dots, is_abs}

-- A letter, a digit or a dash.
abbrev pub IsSlugCode : ℕ → Type 0
IsSlugCode c = ((97 ≤ c) × (c ≤ 122)) ⊎ (((48 ≤ c) × (c ≤ 57)) ⊎ (c ≡ 45))

-- A letter, and up to 62 letters, digits and dashes.
abbrev pub IsSlug : List ℕ → Type 0
IsSlug [] = ⊥
IsSlug (c ∷ cs) = (97 ≤ c) × (c ≤ 122) × All IsSlugCode cs × (length cs ≤ 62)

-- Two dots, one behind the other.
abbrev pub HasDots : List ℕ → Type 0
HasDots l = (before : List ℕ) × (after : List ℕ) × (l ≡ before ++ 46 ∷ 46 ∷ after)

-- A slash to begin with.
abbrev pub IsRooted : List ℕ → Type 0
IsRooted l = (rest : List ℕ) × (l ≡ 47 ∷ rest)

all_codes-All : (cs : List ℕ) → all_codes is_slug_code cs ≡ true → All IsSlugCode cs
unfolding all_codes
all_codes-All [] h = tt
all_codes-All (c ∷ cs) h = (ground (arith, h), all_codes-All cs (ground (arith, h)))

All-all_codes : (cs : List ℕ) → All IsSlugCode cs → all_codes is_slug_code cs ≡ true
unfolding all_codes
All-all_codes [] h = refl
All-all_codes (c ∷ cs) h = ground (arith, h.0, All-all_codes cs h.1)

pub is_slug-IsSlug : (l : List ℕ) → (is_slug l ≡ true) ↔ IsSlug l
unfolding is_slug
is_slug-IsSlug [] = ((λ h. cc), λ h. absurd h)
is_slug-IsSlug (c ∷ cs) = (
  (λ h. (
    ground (arith, h),
    ground (arith, h),
    all_codes-All cs (ground (arith, h)),
    ground (arith, h),
  )),
  λ h. ground (arith, h.0, h.1, All-all_codes cs h.2, h.3),
)

has_dots-cons : (c : ℕ) (l : List ℕ) → has_dots l ≡ true → has_dots (c ∷ l) ≡ true
unfolding has_dots
has_dots-cons c [] h = cc
has_dots-cons c (d ∷ rest) h = ground (arith, h)

has_dots-append : (before after : List ℕ) → has_dots (before ++ 46 ∷ 46 ∷ after) ≡ true
unfolding has_dots
has_dots-append [] after = refl
has_dots-append (c ∷ before) after =
    has_dots-cons c (before ++ 46 ∷ 46 ∷ after) (has_dots-append before after)

two_dots : (c d : ℕ) → ((c == 46) && (d == 46)) ≡ true → (c ≡ 46) × (d ≡ 46)
two_dots c d h = (ground (arith, h), ground (arith, h))

has_dots-HasDots : (l : List ℕ) → has_dots l ≡ true → HasDots l
unfolding has_dots
has_dots-HasDots [] h = cc
has_dots-HasDots (c ∷ []) h = cc
has_dots-HasDots (c ∷ d ∷ rest) h = elim (Bool-cases ((c == 46) && (d == 46))) [
  | inl here ↦ let both = two_dots c d here in ([], rest, cc (both.0, both.1))
  | inr later ↦
      let (before, after, same) = has_dots-HasDots (d ∷ rest) (ground (arith, h, later)) in
      (c ∷ before, after, ap (λ l. c ∷ l) same)
]

false_not_true : false ≡ true → ⊥
false_not_true e = cc

pub no_dots : (l : List ℕ) → (has_dots l ≡ false) ↔ ¬ HasDots l
no_dots l = (
  (λ h (before, after, same).
      false_not_true (sym h ∙ (ap has_dots same ∙ has_dots-append before after))),
  λ none. elim (Bool-cases (has_dots l)) [
    | inl dots ↦ absurd (none (has_dots-HasDots l dots))
    | inr free ↦ free
  ],
)

is_47 : (c : ℕ) → (c == 47) ≡ true → c ≡ 47
is_47 c h = ground (arith, h)

pub not-IsRooted : (l : List ℕ) → (is_abs l ≡ false) ↔ ¬ IsRooted l
unfolding is_abs
not-IsRooted [] = ((λ h (rest, same). cc same), λ h. refl)
not-IsRooted (c ∷ cs) = (
  (λ h (rest, same). ground (arith, h, same)),
  λ free. elim (Bool-cases (c == 47)) [
    | inl slash ↦ absurd (free (cs, ap (λ x. x ∷ cs) (is_47 c slash)))
    | inr other ↦ other
  ],
)
