-- ===== src/Prelude/Texts.antt =====
-- Python's `str` as the list of its code points, with the searches that the program makes.
use Prim.Native.Nat.{ℕ}
use Prim.Native.Char.{code}
use Prim.Native.String.{String}
use mathlib.Core.Path.{◌≡◌, refl, sym}
use mathlib.Core.Logic.{◌↔◌, inl, inr}
use mathlib.Core.Bool.{Bool, true, false, ◌&&◌, ◌||◌}
use mathlib.Core.List.{List, [], ◌∷◌}
use native.Mathlib.Omega.{arith}
use washing.Prelude.Tests.{◌==◌, Bool-cases}
use washing.Prelude.Lists.{In}

abbrev pub Text : Type 0
Text = List ℕ

-- A literal.
abbrev pub codes : String → Text
codes String.[] = []
codes (String.◌∷◌ c s) = code c ∷ codes s

unfoldable pub eq_text : Text → Text → Bool
eq_text [] [] = true
eq_text [] (d ∷ t) = false
eq_text (c ∷ s) [] = false
eq_text (c ∷ s) (d ∷ t) = c == d && eq_text s t

pub eq_text_refl : (s : Text) → eq_text s s ≡ true
unfolding eq_text
eq_text_refl [] = refl
eq_text_refl (c ∷ s) = ground (arith, eq_text_refl s)

pub eq_text→eq : (s t : Text) → eq_text s t ≡ true → s ≡ t
unfolding eq_text
eq_text→eq [] [] h = refl
eq_text→eq [] (d ∷ t) h = ground arith
eq_text→eq (c ∷ s) [] h = ground arith
eq_text→eq (c ∷ s) (d ∷ t) h = ground (arith, eq_text→eq s t)

pub eq_text_iff : (s t : Text) → (eq_text s t ≡ true) ↔ (s ≡ t)
eq_text_iff s t = (eq_text→eq s t, λ e. rw e (eq_text_refl t))

-- `s.startswith(p)`
unfoldable pub starts_with : Text → Text → Bool
starts_with s [] = true
starts_with [] (d ∷ p) = false
starts_with (c ∷ s) (d ∷ p) = c == d && starts_with s p

-- `p in s`
unfoldable pub contains : Text → Text → Bool
unfolding starts_with
contains [] p = starts_with [] p
contains (c ∷ s) p = starts_with (c ∷ s) p || contains s p

-- `s.endswith(p)`
unfoldable pub ends_with : Text → Text → Bool
unfolding eq_text
ends_with [] p = eq_text [] p
ends_with (c ∷ s) p = eq_text (c ∷ s) p || ends_with s p

-- A text is a member of a list of texts.
unfoldable pub elem_text : Text → List Text → Bool
unfolding eq_text
elem_text s [] = false
elem_text s (t ∷ ts) = eq_text s t || elem_text s ts

pub elem_text-In : (s : Text) (ts : List Text) → (elem_text s ts ≡ true) ↔ In s ts
unfolding elem_text
elem_text-In s [] = (λ h. cc, λ h. absurd h)
elem_text-In s (t ∷ ts) =
    let (f, g) = elem_text-In s ts in
    let (i, j) = eq_text_iff s t in
    elim (Bool-cases (eq_text s t)) [
      | inl e ↦ (λ h. inl (sym (i e)), λ h. rw e)
      | inr e ↦ (
        λ h. inr (f (rw e at h)),
        λ h. elim h [ inl d ↦ absurd (cc (j (sym d), e)) | inr m ↦ rw e (g m) ],
      )
    ]
