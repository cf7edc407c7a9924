-- ===== src/SignIn/Closed.antt =====
-- Consuming a challenge closes it.
use nim_near.Prelude.{
  ℕ, ◌≡◌, ◌≢◌, ◌≤◌, ◌<◌, refl, sym, ap, subst, ◌∙◌, inl, inr, Bool, true, false, not, ◌&&◌, Option,
  none, some, List, [], ◌∷◌, arith, ltb, leb, ◌==◌, is_none, exists, find, find-holds, update_where,
  All, Text, text_eq, text_eq_sound, Result, ok, err, bind-eq-ok, require-eq-ok, or_fail-eq-ok,
  Bool-cases, ◌>>=◌, Option-cases, if◌then◌else◌,
}
use nim_near.Store.{Answers, Time}
use nim_near.SignIn.Tables.{Challenge, Identity, User, AuthDb, transact}
use nim_near.SignIn.Consume.{
  is_open, used, find_user, sign_in_known, sign_in_new, resolve_identity, consume_tx,
  display_name_for_wallet,
}

-- No challenge of the id is open from `now` on.
abbrev pub IsClosed : ℕ → Time → List Challenge → Type 0
IsClosed id now = All (λ c. (t : Time) → now ≤ t → is_open id t c ≡ false)

used-IsClosed :
    (id : ℕ) (now : Time) (cs : List Challenge)
    → IsClosed id now (update_where (is_open id now) (used now) cs)
unfolding update_where
used-IsClosed id now [] = tt
used-IsClosed id now (c ∷ cs) = ((λ t later. ground (arith, later)), used-IsClosed id now cs)

closed-find :
    (id : ℕ) (now t : Time) (cs : List Challenge)
    → now ≤ t
    → IsClosed id now cs
    → find (is_open id t) cs ≡ none
unfolding find
closed-find id now t [] later h = refl
closed-find id now t (c ∷ cs) later h =
    ground (arith, h.0 t later, closed-find id now t cs later h.1)

pub ok_injective : {A : Type 0} {a b : A} → ok a ≡ ok b → a ≡ b
ok_injective h = cc

pub failure : {A : Type 0} {B : Type 0} {e : nim_near.Prelude.Error} {a : A} → err e ≡ ok a → B
failure h = cc

pub pair :
    {A : Type 0} {a b : A} {x y : AuthDb}
    → a ≡ b
    → x ≡ y
    → ◌≡◌ {A = Result (A × AuthDb)} (ok (a, x)) (ok (b, y))
pair h k = rw (h, k) refl

committed :
    {A : Type 0} (db db' : AuthDb) (m : Result (A × AuthDb)) (a : A)
    → transact db m ≡ (ok a, db')
    → m ≡ ok (a, db')
committed db db' (ok (b, last)) a h =
    let same : b ≡ a = ok_injective (ap (λ p. p.0) h) in
    let left : last ≡ db' = ap (λ p. p.1) h in pair same left
committed db db' (err e) a h = failure (ap (λ p. p.0) h)

ok_last :
    {db : AuthDb} {r : User × AuthDb} {u : User}
    → ok (u, db) ≡ ok r
    → r.1.challenges ≡ db.challenges
ok_last h = ap (λ (x : User × AuthDb). x.1.challenges) (sym (ok_injective h))

known-challenges :
    (up : Answers) (c : Challenge) (key : Text) (now : Time) (name : Text) (db : AuthDb)
    (found : Identity × User) (r : User × AuthDb)
    → sign_in_known up c key now name db found ≡ ok r
    → r.1.challenges ≡ db.challenges
unfolding sign_in_known
known-challenges up c key now name db found r h =
    let (_, _, h1) = bind-eq-ok _ _ h in
    let (_, _, h2) = bind-eq-ok _ _ h1 in
    let (_, _, h3) = bind-eq-ok _ _ h2 in let (_, _, h4) = bind-eq-ok _ _ h3 in ok_last h4

new-challenges :
    (up : Answers) (id : ℕ) (c : Challenge) (key : Text) (now : Time) (name : Text) (db : AuthDb)
    (r : User × AuthDb)
    → sign_in_new up id c key now name db ≡ ok r
    → r.1.challenges ≡ db.challenges
unfolding sign_in_new
new-challenges up id c key now name db r h =
    let (_, _, h1) = bind-eq-ok _ _ h in
    let (_, _, h2) = bind-eq-ok _ _ h1 in
    let (_, _, h3) = bind-eq-ok _ _ h2 in
    let (_, _, h4) = bind-eq-ok _ _ h3 in let (_, _, h5) = bind-eq-ok _ _ h4 in ok_last h5

resolve-challenges :
    (up : Answers) (id : ℕ) (c : Challenge) (key : Text) (now : Time) (name : Text) (db : AuthDb)
    (r : User × AuthDb)
    → resolve_identity up id c key now name db ≡ ok r
    → r.1.challenges ≡ db.challenges
unfolding resolve_identity
resolve-challenges up id c key now name db r h =
    elim (Option-cases (find_user c.network c.claimed_address db)) [
      | inl e ↦ new-challenges up id c key now name db r (ground (arith, e, h))
      | inr (found, e) ↦ known-challenges up c key now name db found r (ground (arith, e, h))
    ]

pub consume_tx-IsClosed :
    (up : Answers) (user id : ℕ) (key : Text) (now : Time) (label : Text) (db : AuthDb)
    (r : User × AuthDb)
    → consume_tx up user id key now label db ≡ ok r
    → IsClosed id now r.1.challenges
unfolding consume_tx
consume_tx-IsClosed up user id key now label db r h =
    let (_, _, h1) = bind-eq-ok _ _ h in
    let (_, _, h2) = bind-eq-ok _ _ h1 in
    let (c, _, h3) = bind-eq-ok _ _ h2 in
    let (_, _, h4) = bind-eq-ok _ _ h3 in
    let (_, _, h5) = bind-eq-ok _ _ h4 in
    subst (IsClosed id now)
      (sym (
        resolve-challenges up user c key now (display_name_for_wallet c.claimed_address label) _ r
          h5))
      (used-IsClosed id now db.challenges)

pub closed-refused :
    (up : Answers) (user id : ℕ) (key : Text) (now later : Time) (label : Text) (db : AuthDb)
    (r : User × AuthDb)
    → now ≤ later
    → IsClosed id now db.challenges
    → consume_tx up user id key later label db ≢ ok r
unfolding consume_tx
closed-refused up user id key now later label db r le closed h =
    let (_, _, h1) = bind-eq-ok _ _ h in
    let (_, _, h2) = bind-eq-ok _ _ h1 in
    let (c, found, _) = bind-eq-ok _ _ h2 in
    absurd (sym (closed-find id now later db.challenges le closed) ∙ or_fail-eq-ok _ _ found)
  where
    absurd : {c : Challenge} → none ≡ some c → ⊥
    absurd e = cc
