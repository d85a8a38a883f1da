-- ===== src/Api/Pages/Cover.antt =====
-- What the pages of a list of app/api/routes/ hold together.
use washing.Prelude.{
  ℕ, zero, suc, ◌+◌, ◌*◌, ◌≤◌, ◌≡◌, refl, sym, ap, ◌∙◌, Bool, List, [], ◌∷◌, ◌++◌, map, length,
  take, drop, insert_with, sort_with, arith, Bool-cases, inl, inr,
}
use native.Mathlib.Nat.{zero-add, suc-add, zero-mul, suc-mul}
use washing.Api.Pages.{paginate_query}

module _ {A : Type 0} where
  take_empty : (l : ℕ) → take {A = A} l [] ≡ []
  take_empty zero = refl
  take_empty (suc l) = refl

  take-add : (m l : ℕ) (xs : List A) → take (m + l) xs ≡ take m xs ++ take l (drop m xs)
  take-add zero l xs = ap (λ k. take k xs) (zero-add l)
  take-add (suc m) l [] = ap (λ k. take k []) (suc-add m l) ∙ sym (take_empty l)
  take-add (suc m) l (x ∷ xs) =
      ap (λ k. take k (x ∷ xs)) (suc-add m l) ∙ ap (λ t. x ∷ t) (take-add m l xs)

  take_all : (m : ℕ) (xs : List A) → length xs ≤ m → take m xs ≡ xs
  take_all zero [] h = refl
  take_all (suc m) [] h = refl
  take_all zero (x ∷ xs) h = absurd (omega (arith, h))
  take_all (suc m) (x ∷ xs) h = ap (λ t. x ∷ t) (take_all m xs (omega (arith, h)))

  length-insert_with :
      (before : A → A → Bool) (x : A) (xs : List A)
      → length (insert_with before x xs) ≡ suc (length xs)
  unfolding insert_with
  length-insert_with before x [] = refl
  length-insert_with before x (y ∷ ys) = elim (Bool-cases (before x y)) [
    | inl e ↦ rw e refl
    | inr e ↦ rw (e, length-insert_with before x ys) refl
  ]

  length-sort_with :
      (before : A → A → Bool) (xs : List A) → length (sort_with before xs) ≡ length xs
  unfolding sort_with
  length-sort_with before [] = refl
  length-sort_with before (x ∷ xs) =
      length-insert_with before x (sort_with before xs)
      ∙ ap (λ n. suc n) (length-sort_with before xs)

map-append : {A B : Type 0} (f : A → B) (xs ys : List A) → map f (xs ++ ys) ≡ map f xs ++ map f ys
map-append f [] ys = refl
map-append f (x ∷ xs) ys = ap (λ t. f x ∷ t) (map-append f xs ys)

module _ {A R : Type 0} (before : A → A → Bool) (serialize : A → R) (rows : List A)
    (limit : ℕ) where
  -- The items of the first n pages, one after another.
  unfoldable pub pages : ℕ → List R
  unfolding paginate_query
  pages zero = []
  pages (suc n) =
      pages n
      ++ (paginate_query before serialize (record { offset = n * limit; limit = limit }) rows).items

  pages-take : (n : ℕ) → pages n ≡ map serialize (take (n * limit) (sort_with before rows))
  unfolding pages paginate_query
  pages-take zero = ap (λ k. map serialize (take k (sort_with before rows))) (sym (zero-mul limit))
  pages-take (suc n) =
      ap (λ t. t ++ map serialize (take limit (drop (n * limit) (sort_with before rows))))
        (pages-take n)
      ∙ sym (
          map-append serialize (take (n * limit) (sort_with before rows))
            (take limit (drop (n * limit) (sort_with before rows))))
      ∙ sym (ap (map serialize) (take-add (n * limit) limit (sort_with before rows)))
      ∙ ap (λ k. map serialize (take k (sort_with before rows))) (sym (suc-mul n limit))

  -- The pages of a list at the offsets 0, limit, 2 * limit and on, put together, are the rows of the
  -- query in their order, each once, as soon as there are enough of them for the total that each
  -- page states.
  pub pages_cover :
      (n : ℕ)
      → (paginate_query before serialize (record { offset = 0; limit = limit }) rows).total
        ≤ n * limit
      → pages n ≡ map serialize (sort_with before rows)
  unfolding paginate_query
  pages_cover n h =
      pages-take n
      ∙ ap (map serialize) (
          take_all (n * limit) (sort_with before rows)
            (omega (arith, h, length-sort_with before rows)))
