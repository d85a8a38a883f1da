-- ===== src/Connectors/Presets/Names.antt =====
-- Which presets internal/infra/connectors/provisioners/mock.py lists and which it accepts.
use mathlib.Core.Path.{subst}
use washing.Prelude.{
  codes, ◌≡◌, refl, sym, ap, ◌==◌, Bool, true, false, ◌&&◌, ◌||◌, Option, none, some, List, [], ◌∷◌,
  ◌↔◌, ◌⊎◌, inl, inr, Text, eq_text, eq_text_iff, In, In-append, insert_with, sort_with, arith,
  Bool-cases, &&-true,
}
use washing.Connectors.{answered}
use washing.Connectors.Presets.{
  Entry, is_name_char, matches_rest, is_preset_name, validate_mock_preset_name, has_file,
  entries_of, file_name, resolve_name, resolve_mock_preset_path, preset_stems, list_mock_presets,
}

module _ {A : Type 0} (before : A → A → Bool) where
  In-insert_with : (a x : A) (xs : List A) → In a (insert_with before x xs) ↔ ((x ≡ a) ⊎ In a xs)
  unfolding insert_with
  In-insert_with a x [] = (λ h. h, λ h. h)
  In-insert_with a x (y ∷ ys) =
      let (f, g) = In-insert_with a x ys in
      elim (Bool-cases (before x y)) [
        | inl e ↦ rw e (λ h. h, λ h. h)
        | inr e ↦ rw e (
          λ h. elim h [
            | inl d ↦ inr (inl d)
            | inr m ↦ elim (f m) [ inl d ↦ inl d | inr k ↦ inr (inr k) ]
          ],
          λ h. elim h [
            | inl d ↦ inr (g (inl d))
            | inr m ↦ elim m [ inl d ↦ inl d | inr k ↦ inr (g (inr k)) ]
          ],
        )
      ]

  In-sort_with : (a : A) (xs : List A) → In a (sort_with before xs) ↔ In a xs
  unfolding sort_with
  In-sort_with a [] = (λ h. h, λ h. h)
  In-sort_with a (x ∷ xs) =
      let (f, g) = In-insert_with a x (sort_with before xs) in
      let (i, j) = In-sort_with a xs in
      (
        λ h. elim (f h) [ inl d ↦ inl d | inr m ↦ inr (i m) ],
        λ h. g (elim h [ inl d ↦ inl d | inr m ↦ inr (j m) ]),
      )

In-preset_stems :
    (p : Text) (es : List Entry)
    → In p (preset_stems es) ↔ ((is_preset_name p && has_file es p) ≡ true)
unfolding preset_stems has_file
In-preset_stems p [] = (λ h. absurd h, λ h. ground (arith, h))
In-preset_stems p (e ∷ es) =
    let (f, g) = In-preset_stems p es in
    let (i, j) = eq_text_iff e.stem p in
    elim (Bool-cases (e.is_file && is_preset_name e.stem)) [
      | inl t ↦ rw t (
        λ h. elim h [
          | inl d ↦ ground (arith, j d, t, ap is_preset_name d)
          | inr m ↦ ground (arith, f m)
        ],
        λ h. elim (Bool-cases (eq_text e.stem p)) [
          | inl d ↦ inl (i d)
          | inr n ↦ inr (g (ground (arith, h, n)))
        ],
      )
      | inr t ↦ rw t (
        λ m. ground (arith, f m),
        λ h. g (elim (Bool-cases (eq_text e.stem p)) [
          | inl d ↦ ground (arith, h, t, ap is_preset_name (i d))
          | inr n ↦ ground (arith, h, n)
        ]),
      )
    ]

resolve-answered :
    (dir : Option (List Entry)) (p : Text)
    → (resolve_mock_preset_path dir p ≡ answered (file_name p))
      ↔ ((is_preset_name p && has_file (entries_of dir) p) ≡ true)
unfolding resolve_mock_preset_path validate_mock_preset_name resolve_name
resolve-answered dir p = elim (Bool-cases (is_preset_name p)) [
  | inl e ↦ elim (Bool-cases (has_file (entries_of dir) p)) [
    | inl h ↦ rw (e, h) (λ x. refl, λ x. refl)
    | inr h ↦ rw (e, h) (λ x. absurd (cc x), λ x. cc x)
  ]
  | inr e ↦ rw e (λ x. absurd (cc x), λ x. cc x)
]

-- The presets that are listed are those whose path resolves, whatever entries the directory has, and
-- none where it does not exist.
pub list-resolves :
    (before : Text → Text → Bool) (dir : Option (List Entry)) (p : Text)
    → In p (list_mock_presets before dir)
      ↔ (resolve_mock_preset_path dir p ≡ answered (file_name p))
unfolding list_mock_presets has_file
list-resolves before none p =
    let (f, g) = resolve-answered none p in (λ h. absurd h, λ h. ground (arith, f h))
list-resolves before (some es) p =
    let (f, g) = resolve-answered (some es) p in
    let (i, j) = In-preset_stems p es in
    let (k, l) = In-sort_with before p (preset_stems es) in (λ h. g (i (k h)), λ h. l (j (f h)))

matches_rest-slash : (b : Bool) (s : Text) → matches_rest b s ≡ true → In 47 s → ⊥
unfolding matches_rest
matches_rest-slash b [] h m = m
matches_rest-slash b (c ∷ s) h m =
    let (f, g) = &&-true (is_name_char c || (c == 45 && b)) (matches_rest (is_name_char c) s) h in
    elim m [ inl e ↦ ground (arith, e, f) | inr k ↦ matches_rest-slash (is_name_char c) s g k ]

file_name-slash : (p : Text) → is_preset_name p ≡ true → In 47 (file_name p) → ⊥
file_name-slash p e m = elim ((In-append 47 p (codes ".json")).0 m) [
  | inl k ↦ matches_rest-slash false p e k
  | inr k ↦ ground (arith, k)
]

-- A path that resolves is that of the preset, of a file of the directory, and no separator is in it:
-- the preset names no other directory.
pub resolved-IsInside :
    (dir : Option (List Entry)) (p path : Text)
    → resolve_mock_preset_path dir p ≡ answered path
    → (path ≡ file_name p) × (has_file (entries_of dir) p ≡ true) × (In 47 path → ⊥)
unfolding resolve_mock_preset_path validate_mock_preset_name resolve_name
resolved-IsInside dir p path r = elim (Bool-cases (is_preset_name p)) [
  | inl e ↦ elim (Bool-cases (has_file (entries_of dir) p)) [
    | inl h ↦
        let same : file_name p ≡ path = cc (rw (e, h) at r) in
        (sym same, h, λ m. file_name-slash p e (subst (In 47) (sym same) m))
    | inr h ↦ absurd (cc (rw (e, h) at r))
  ]
  | inr e ↦ absurd (cc (rw e at r))
]
