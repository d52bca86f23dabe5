-- ===== src/Stats/Chain.antt =====
-- Chains of fallible steps: `?`, and `collect::<Result<Vec<_>, _>>()`, which stops at the first error.
pub mod Client
use elidune_server.Prelude.{Option, none, some, List, [], ◌∷◌, ◌≡◌, refl, subst}
use elidune_server.Error.{Result, AppError, ok, err, ok_or}

module _ {A B : Type 0} where
  infixl 5 ◌>>=◌ ◌>>◌
  abbrev pub ◌>>=◌ : Result A → (A → Result B) → Result B
  ok a >>= f = f a
  err e >>= f = err e

  abbrev pub ◌>>◌ : Result A → Result B → Result B
  m >> n = m >>= λ _. n

  -- Where a chain succeeds, its first step did.
  pub chain_ok :
      (m : Result A) (f : A → Result B) (b : B)
      → (m >>= f) ≡ ok b
      → (a : A) × (m ≡ ok a) × (f a ≡ ok b)
  chain_ok (ok a) f b e = (a, refl, e)
  chain_ok (err x) f b e = cc

module _ {A B : Type 0} (f : A → Result B) where
  abbrev pub collect : List A → Result (List B)
  collect [] = ok []
  collect (x ∷ xs) = f x >>= λ y. collect xs >>= λ ys. ok (y ∷ ys)

-- What a step returns, when it returns, satisfies P.
abbrev pub Yields : {A : Type 0} → (A → Type 0) → Result A → Type 0
Yields P (ok a) = P a
Yields P (err e) = Unit

module _ {A B : Type 0} where
  pub chain-Yields :
      (P : A → Type 0) (Q : B → Type 0) (m : Result A) (f : A → Result B)
      → Yields P m
      → ((a : A) → P a → Yields Q (f a))
      → Yields Q (m >>= f)
  chain-Yields P Q (ok a) f h k = k a h
  chain-Yields P Q (err e) f h k = tt

  pub reading :
      (P : B → Type 0) (m : Result A) (f : A → Result B)
      → ((a : A) → Yields P (f a))
      → Yields P (m >>= f)
  reading P (ok a) f k = k a
  reading P (err e) f k = tt

  -- The same, where the continuation uses that the first step returned.
  pub chain-Yields_eq :
      (Q : B → Type 0) (m : Result A) (f : A → Result B)
      → ((a : A) → m ≡ ok a → Yields Q (f a))
      → Yields Q (m >>= f)
  chain-Yields_eq Q (ok a) f k = k a refl
  chain-Yields_eq Q (err e) f k = tt

pub Yields_ok : {A : Type 0} (P : A → Type 0) (m : Result A) (a : A) → Yields P m → m ≡ ok a → P a
Yields_ok P m a h e = subst (Yields P) e h

pub ok_or-some : {A : Type 0} (e : AppError) (o : Option A) (a : A) → ok_or e o ≡ ok a → o ≡ some a
ok_or-some e none a h = cc
ok_or-some e (some b) a h = cc
