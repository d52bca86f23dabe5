-- ===== src/Db/Laws.antt =====
-- Inversion of a chain of calls, and calls that leave the database as it was.
use elidune_server.Prelude.{◌≡◌, refl, arith}
use elidune_server.Error.{AppError, Result, ok, err}
use elidune_server.Db.{Db, Action, transaction, ◌>>=◌}

module _ {A B : Type 0} where
  -- A chain that ends well had a first part that ended well.
  pub >>=-eq-ok :
      (m : Action A) (f : A → Action B) (db db' : Db) (b : B)
      → (m >>= f) db ≡ (ok b, db')
      → (a : A) × (mid : Db) × (m db ≡ (ok a, mid)) × (f a mid ≡ (ok b, db'))
  >>=-eq-ok m f db db' b h = go (m db).0 refl
    where
      go :
          (r : Result A)
          → (m db).0 ≡ r
          → (a : A) × (mid : Db) × (m db ≡ (ok a, mid)) × (f a mid ≡ (ok b, db'))
      go (ok a) e = (a, (m db).1, ground arith, ground arith)
      go (err e) p = absurd (ground arith)

-- A call that writes nothing, whatever it answers.
abbrev pub ReadsOnly : {A : Type 0} → Action A → Type 0
ReadsOnly m = (db : Db) → (m db).1 ≡ db

-- A call that writes nothing if it fails.
abbrev pub IsAtomic : {A : Type 0} → Action A → Type 0
IsAtomic m = (db : Db) (e : AppError) → (m db).0 ≡ err e → (m db).1 ≡ db

pub transaction-IsAtomic : {A : Type 0} (m : Action A) → IsAtomic (transaction m)
unfolding transaction
transaction-IsAtomic m db e h = ground arith

module _ {A B : Type 0} where
  -- What holds after the first call, however it ended, and after the second call on every answer
  -- of the first, holds after the two.
  pub >>=-keeps :
      (P : Db → Type 0) (m : Action A) (f : A → Action B) (db : Db)
      → P (m db).1
      → ((a : A) → (m db).0 ≡ ok a → P (f a (m db).1).1)
      → P ((m >>= f) db).1
  >>=-keeps P m f db p h = go (m db).0 refl
    where
      go : (r : Result A) → (m db).0 ≡ r → P ((m >>= f) db).1
      go (ok a) e = rw e (h a e)
      go (err e) q = rw q p
