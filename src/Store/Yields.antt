-- ===== src/Store/Yields.antt =====
-- Reasoning about a transaction step by step: what its result and the tables that it leaves
-- satisfy.
use nim_near.Prelude.{ap, ◌≡◌, refl, subst, Result, ok, err, ◌>>=◌}
use nim_near.Store.{Db, transact}

module _ {A : Type 0} (Q : A → Db → Type 0) where
  pub data Yields : Result (A × Db) → Type 0 where
    done : (a : A) (db : Db) → Q a db → Yields (ok (a, db))
    failed : (e : nim_near.Prelude.Error) → Yields (err e)

  pub Yields-bind :
      {B : Type 0} (m : Result B) (f : B → Result (A × Db))
      → ((b : B) → m ≡ ok b → Yields (f b))
      → Yields (m >>= f)
  unfolding ◌>>=◌
  Yields-bind (ok b) f h = h b refl
  Yields-bind (err e) f h = failed e

  abbrev pub Committed : Result A × Db → Type 0
  Committed (ok a, db) = Q a db
  Committed (err e, db) = Unit

  -- A transaction that succeeds has committed what it yields.
  pub transact-Yields :
      (db db' : Db) (m : Result (A × Db)) (a : A) → Yields m → transact db m ≡ (ok a, db') → Q a db'
  transact-Yields db db' (ok (b, last)) a (done _ _ q) e = subst Committed e q
  transact-Yields db db' (err x) a h e = cc (ap (λ (r : Result A × Db). r.0) e)

  abbrev Given : Result (A × Db) → Type 0
  Given (ok (a, db)) = Q a db
  Given (err e) = Unit

  given : (m : Result (A × Db)) → Yields m → Given m
  given (ok (a, db)) (done _ _ q) = q
  given (err e) h = tt

  -- A step that succeeds has what it yields.
  pub Yields-ok : (m : Result (A × Db)) (r : A × Db) → Yields m → m ≡ ok r → Q r.0 r.1
  Yields-ok m r h e = subst Given e (given m h)
