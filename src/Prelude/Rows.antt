-- ===== src/Prelude/Rows.antt =====
-- What updates, deletions and lookups do to the rows that a predicate holds of, and to other rows.
use mathlib.Core.Path.{◌≡◌, refl, subst}
use mathlib.Core.Logic.{inl, inr}
use mathlib.Core.Bool.{Bool, true, false}
use mathlib.Core.Option.{some}
use mathlib.Core.List.{List, [], ◌∷◌, ◌++◌}
use native.Mathlib.Omega.{arith}
use elidune_server.Prelude.Tests.{Bool-cases}
use elidune_server.Prelude.Table.{
  All, IsRow, select_first, select_where, update_where, delete_where,
}

module _ {A : Type 0} (P : A → Type 0) where
  pub All-update :
      (p : A → Bool) (f : A → A) (xs : List A)
      → ((x : A) → P x → P (f x))
      → All P xs
      → All P (update_where p f xs)
  All-update p f [] h a = tt
  All-update p f (x ∷ xs) h (a, as') = elim (Bool-cases (p x)) [
    | inl yes' ↦ rw (yes', All) (h x a, All-update p f xs h as')
    | inr no' ↦ rw (no', All) (a, All-update p f xs h as')
  ]

  pub All-delete : (p : A → Bool) (xs : List A) → All P xs → All P (delete_where p xs)
  All-delete p [] a = tt
  All-delete p (x ∷ xs) (a, as') = elim (Bool-cases (p x)) [
    | inl yes' ↦ rw yes' (All-delete p xs as')
    | inr no' ↦ rw no' (a, All-delete p xs as')
  ]

  pub All-select_where : (p : A → Bool) (xs : List A) → All P xs → All P (select_where p xs)
  All-select_where p [] a = tt
  All-select_where p (x ∷ xs) (a, as') = elim (Bool-cases (p x)) [
    | inl yes' ↦ rw yes' (a, All-select_where p xs as')
    | inr no' ↦ rw no' (All-select_where p xs as')
  ]

  pub All-select_first :
      (p : A → Bool) (xs : List A) (x : A) → All P xs → select_first p xs ≡ some x → P x
  All-select_first p [] x a e = cc
  All-select_first p (y ∷ ys) x (a, as') e = elim (Bool-cases (p y)) [
    | inl yes' ↦ subst P (found yes') a
    | inr no' ↦ All-select_first p ys x as' (ground arith)
  ]
    where
      found : p y ≡ true → y ≡ x
      found yes' = ground arith

module _ {A : Type 0} where
  pub select_where-All :
      (P : A → Type 0) (p : A → Bool) (xs : List A)
      → ((x : A) → IsRow x xs → p x ≡ true → P x)
      → All P (select_where p xs)
  select_where-All P p [] h = tt
  select_where-All P p (x ∷ xs) h = elim (Bool-cases (p x)) [
    | inl yes' ↦ rw yes' (h x (inl refl) yes', select_where-All P p xs (λ y r. h y (inr r)))
    | inr no' ↦ rw no' (select_where-All P p xs (λ y r. h y (inr r)))
  ]

  pub All-map : (P Q : A → Type 0) (xs : List A) → ((x : A) → P x → Q x) → All P xs → All Q xs
  All-map P Q [] h a = tt
  All-map P Q (x ∷ xs) h (a, as') = (h x a, All-map P Q xs h as')

  -- A lookup does not see what happens to rows that it does not match.
  pub select_first-delete :
      (p q : A → Bool) (xs : List A)
      → ((x : A) → p x ≡ true → q x ≡ false)
      → select_first p (delete_where q xs) ≡ select_first p xs
  select_first-delete p q [] h = refl
  select_first-delete p q (x ∷ xs) h = ground (arith, h x, select_first-delete p q xs h)

  pub select_first-grow :
      (p : A → Bool) (xs ys : List A) (x : A)
      → select_first p xs ≡ some x
      → select_first p (xs ++ ys) ≡ some x
  select_first-grow p [] ys x e = cc
  select_first-grow p (y ∷ xs) ys x e = ground (arith, select_first-grow p xs ys x)

  pub select_first-update_other :
      (p q : A → Bool) (f : A → A) (xs : List A)
      → ((x : A) → q x ≡ true → p x ≡ false)
      → ((x : A) → q x ≡ true → p (f x) ≡ false)
      → select_first p (update_where q f xs) ≡ select_first p xs
  select_first-update_other p q f [] h k = refl
  select_first-update_other p q f (x ∷ xs) h k =
      ground (arith, h x, k x, select_first-update_other p q f xs h k)

  pub select_first-update_found :
      (p : A → Bool) (f : A → A) (xs : List A) (x : A)
      → ((y : A) → p (f y) ≡ true)
      → select_first p xs ≡ some x
      → select_first p (update_where p f xs) ≡ some (f x)
  select_first-update_found p f [] x h e = cc
  select_first-update_found p f (y ∷ xs) x h e =
      ground (arith, h y, select_first-update_found p f xs x h)
