-- ===== src/Domain/Ascii.antt =====
-- The `Strings` of Python restricted to ASCII, at which the definitions run.
use mathlib.Core.List.{reverse, reverse-append, map-append}
use washing.Prelude.{
  ℕ, ◌+◌, ◌-◌, ◌*◌, ◌≡◌, refl, sym, ap, ◌∙◌, ◌≢◌, Bool, true, false, ◌&&◌, ◌||◌, Option, none, some,
  [], ◌∷◌, ◌++◌, map, Text, arith, leb, ◌==◌, Bool-cases, inl, inr, if◌then◌else◌,
}
use washing.Domain.{Strings, lstrip, strip}
use washing.Domain.Canonical.{IsCasing}

unfoldable pub to_upper : ℕ → ℕ
to_upper c = if leb 97 c && leb c 122 then c - 32 else c

unfoldable pub to_lower : ℕ → ℕ
to_lower c = if leb 65 c && leb c 90 then c + 32 else c

unfoldable pub is_ascii_space : ℕ → Bool
is_ascii_space c = c == 32 || leb 9 c && leb c 13 || leb 28 c && leb c 31

unfoldable pub is_digit : ℕ → Bool
is_digit c = leb 48 c && leb c 57

-- `str.isdigit`: the decimal digits, and "²" as the one digit that `int` refuses.
unfoldable pub are_digits : Text → Bool
unfolding is_digit
are_digits [] = true
are_digits (c ∷ s) = (is_digit c || c == 178) && are_digits s

abbrev is_non_empty : Text → Bool
is_non_empty [] = false
is_non_empty (c ∷ s) = true

unfoldable pub decimal : ℕ → Text → Option ℕ
unfolding is_digit
decimal n [] = some n
decimal n (c ∷ s) = let rest = decimal (n * 10 + (c - 48)) s in if is_digit c then rest else none

abbrev pub ascii : Strings
ascii = record {
  is_space = is_ascii_space;
  upper = map to_upper;
  lower = map to_lower;
  isdigit = λ s. is_non_empty s && are_digits s;
  parse_int = decimal 0;
}

map-reverse : (f : ℕ → ℕ) (s : Text) → reverse (map f s) ≡ map f (reverse s)
map-reverse f [] = refl
map-reverse f (c ∷ s) =
    reverse-append (f c ∷ []) (map f s)
    ∙ ap (λ t. t ++ f c ∷ []) (map-reverse f s)
    ∙ sym (map-append f (reverse s) (c ∷ []))
    ∙ ap (map f) (sym (reverse-append (c ∷ []) s))

map-ne-nil : (f : ℕ → ℕ) (s : Text) → s ≢ [] → map f s ≢ []
map-ne-nil f [] h e = h refl
map-ne-nil f (c ∷ s) h e = cc

module _ (f : ℕ → ℕ) (idem : (c : ℕ) → f (f c) ≡ f c)
    (spaces : (c : ℕ) → is_ascii_space (f c) ≡ is_ascii_space c) where
  map_idem : (s : Text) → map f (map f s) ≡ map f s
  map_idem [] = refl
  map_idem (c ∷ s) = cc (idem c, map_idem s)

  lstrip-map : (s : Text) → lstrip ascii (map f s) ≡ map f (lstrip ascii s)
  unfolding lstrip
  lstrip-map [] = refl
  lstrip-map (c ∷ s) = elim (Bool-cases (is_ascii_space c)) [
    | inl space ↦ rw (spaces c, space) (lstrip-map s)
    | inr other ↦ rw (spaces c, other)
  ]

  strip-map : (s : Text) → strip ascii (map f s) ≡ map f (strip ascii s)
  unfolding strip
  strip-map s =
      ap (λ t. reverse (lstrip ascii (reverse t))) (lstrip-map s)
      ∙ ap (λ t. reverse (lstrip ascii t)) (map-reverse f (lstrip ascii s))
      ∙ ap reverse (lstrip-map (reverse (lstrip ascii s)))
      ∙ map-reverse f (lstrip ascii (reverse (lstrip ascii s)))

  map-IsCasing : IsCasing ascii (map f)
  map-IsCasing = record {
    idem = map_idem;
    keeps_stripped = λ s h. strip-map s ∙ ap (map f) h;
    keeps_non_empty = map-ne-nil f;
  }

to_upper_idem : (c : ℕ) → to_upper (to_upper c) ≡ to_upper c
unfolding to_upper
to_upper_idem c = ground arith

to_lower_idem : (c : ℕ) → to_lower (to_lower c) ≡ to_lower c
unfolding to_lower
to_lower_idem c = ground arith

to_upper_space : (c : ℕ) → is_ascii_space (to_upper c) ≡ is_ascii_space c
unfolding to_upper is_ascii_space
to_upper_space c = ground arith

to_lower_space : (c : ℕ) → is_ascii_space (to_lower c) ≡ is_ascii_space c
unfolding to_lower is_ascii_space
to_lower_space c = ground arith

pub upper-IsCasing : IsCasing ascii ascii.upper
upper-IsCasing = map-IsCasing to_upper to_upper_idem to_upper_space

pub lower-IsCasing : IsCasing ascii ascii.lower
lower-IsCasing = map-IsCasing to_lower to_lower_idem to_lower_space
