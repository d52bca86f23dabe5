-- ===== src/Stats/Chain/Client.antt =====
-- Chains that never end in an internal error (`AppError::Internal`).
use elidune_server.Prelude.{
  if◌then◌else◌, subst, Bool, true, false, Option, none, some, List, [], ◌∷◌, ◌≡◌, refl,
}
use elidune_server.Error.{Result, AppError, ok, err, ok_or, fail_if, internal}
use elidune_server.Stats.Chain.{◌>>=◌, collect}

abbrev pub IsClient : AppError → Type 0
IsClient e = elim e [ internal m ↦ ⊥ | _ ↦ Unit ]

-- The call returns a value, or an error that is not internal.
abbrev pub Client : {A : Type 0} → Result A → Type 0
Client (ok a) = Unit
Client (err e) = IsClient e

module _ {A B : Type 0} where
  pub chain-Client :
      (m : Result A) (f : A → Result B)
      → Client m
      → ((a : A) → m ≡ ok a → Client (f a))
      → Client (m >>= f)
  chain-Client (ok a) f c k = k a refl
  chain-Client (err e) f c k = c

module _ {A B : Type 0} where
  pub collect-Client :
      (f : A → Result B) (xs : List A) → ((x : A) → Client (f x)) → Client (collect f xs)
  collect-Client f [] h = tt
  collect-Client f (x ∷ xs) h =
      chain-Client (f x) _ (h x)
        (λ y e. chain-Client (collect f xs) _ (collect-Client f xs h) (λ ys d. tt))

pub ok_or-Client : {A : Type 0} (e : AppError) (o : Option A) → IsClient e → Client (ok_or e o)
ok_or-Client e none c = c
ok_or-Client e (some a) c = tt

pub fail_if-Client : (b : Bool) (e : AppError) → IsClient e → Client (fail_if b e)
fail_if-Client true e c = c
fail_if-Client false e c = tt

pub if_ok-Client : (b : Bool) (m : Result Unit) → Client m → Client (if b then m else ok tt)
if_ok-Client true m c = c
if_ok-Client false m c = tt

pub Client-err : {A : Type 0} (m : Result A) (e : AppError) → Client m → m ≡ err e → IsClient e
Client-err m e c h = subst Client h c
