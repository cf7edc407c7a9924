-- ===== src/Store/After.antt =====
-- Reasoning about a transaction step by step: what holds of the tables that it leaves.
use nim_near.Prelude.{◌≡◌, refl, Result, ok, err, ◌>>=◌, Bool, true, false, if◌then◌else◌}
use nim_near.Store.{Db, transact}

module _ {ℓ} (P : Db → Type ℓ) where
  pub data After {A : Type 0} : Result (A × Db) → Type ℓ where
    done : (a : A) (db : Db) → P db → After (ok (a, db))
    failed : (e : nim_near.Prelude.Error) → After (err e)

  abbrev pub Holds : {A : Type 0} → Result (A × Db) → Type ℓ
  Holds (ok (a, db)) = P db
  Holds (err e) = Unit

  pub after : {A : Type 0} (m : Result (A × Db)) → Holds m → After m
  after (ok (a, db)) h = done a db h
  after (err e) h = failed e

  pub After-bind :
      {A B : Type 0} (m : Result A) (f : A → Result (B × Db))
      → ((a : A) → m ≡ ok a → After (f a))
      → After (m >>= f)
  unfolding ◌>>=◌
  After-bind (ok a) f h = h a refl
  After-bind (err e) f h = failed e

  pub After-bind_db :
      {A B : Type 0} (m : Result (A × Db)) (f : A × Db → Result (B × Db))
      → After m
      → ((r : A × Db) → P r.1 → After (f r))
      → After (m >>= f)
  unfolding ◌>>=◌
  After-bind_db (ok (a, db)) f (done _ _ h) k = k (a, db) h
  After-bind_db (err e) f h k = failed e

  -- A transaction that fails leaves the tables as they were.
  pub transact-After :
      {A : Type 0} (db : Db) (m : Result (A × Db)) → P db → After m → P (transact db m).1
  transact-After db (ok (a, db')) h (done _ _ k) = k
  transact-After db (err e) h k = h
