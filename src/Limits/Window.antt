-- ===== src/Limits/Window.antt =====
-- A window admits as many calls as its limit, and the two limiters agree.
use nim_near.Prelude.{
  ap, ◌∙◌, ℕ, ℤ, pos, negsuc, suc, ◌+◌, ◌-◌, ◌*◌, ◌/◌, ◌≤◌, ◌<◌, ◌≡◌, refl, inl, inr, true, false,
  Option, none, some, List, [], ◌∷◌, ltb, leb, ◌==◌, if◌then◌else◌, Result, ok, arith, All,
  Bool-cases, require, ◌>>=◌,
}
use nim_near.Store.{Time, Duration, second, minute}
use nim_near.UseCases.{positive_or}
use nim_near.Limits.Rate.{
  limited, MemoryBucket, Redis, count_of, is_stale, count_call, allow, after_incr, allow_redis,
  passed,
}

-- The documented behaviour of INCR and EXPIRE, with `count t s` the value of the key at the time t,
-- which is 0 where there is no key: INCR answers the next value; it keeps the time to live of a key
-- that is there; and Expire of go-redis sends whole seconds, cut off, but at least one, for which EXPIRE lets
-- the value stand.
abbrev pub whole_seconds : Duration → Duration
whole_seconds d = if ltb d second then second else d / second * second

pub record IsRedis {S : Type 0} (redis : Redis S) (count : Time → S → ℕ) : Type 0 where
  pub incr_answers : (now : Time) (s : S) → (redis.incr now s).0 ≡ suc (count now s)
  pub incr_keeps :
      (now t : Time) (s : S)
      → 0 < count now s
      → now ≤ t
      → count t (redis.incr now s).1 ≡ (if count t s == 0 then 0 else suc (count t s))
  pub expire_sets :
      (now t : Time) (window : Duration) (s : S)
      → now ≤ t
      → count t (redis.expire now window s)
        ≡ (if ltb t (now + whole_seconds window) then count now s else 0)
  pub incr_stays : (now : Time) (s : S) → count now (redis.incr now s).1 ≡ suc (count now s)

-- The key counts from now on what the bucket counts.
abbrev pub Agrees : {S : Type 0} → (Time → S → ℕ) → Time → Option MemoryBucket → S → Type 0
Agrees count now bucket s =
    (t : Time) → now ≤ t → count t s ≡ (if is_stale t bucket then 0 else count_of bucket)

-- A bucket is made by a call, and has counted it.
abbrev pub HasCounted : Option MemoryBucket → Type 0
HasCounted none = Unit
HasCounted (some b) = 0 < b.count

after_first :
    {S : Type 0} (redis : Redis S) (limit : ℕ) (window : Duration) (now : Time) (n : ℕ) (s : S)
    → 0 < limit
    → n ≡ 1
    → after_incr redis true limit window now (n, s) ≡ (ok tt, redis.expire now window s)
unfolding after_incr
after_first redis limit window now n s l e = rw e (ground (arith, l))

after_next :
    {S : Type 0} (redis : Redis S) (limit : ℕ) (window : Duration) (now : Time) (n : ℕ) (s : S)
    → 1 < n
    → after_incr redis true limit window now (n, s) ≡ (require (leb n limit) limited, s)
unfolding after_incr
after_next redis limit window now n s l = let d : (n == 1) ≡ false = ground (arith, l) in rw d refl

module _ {S : Type 0} (redis : Redis S) (count : Time → S → ℕ) (laws : IsRedis redis count)
    (limit : ℕ) (window : Duration) (now : Time) (positive : 0 < limit)
    (whole : whole_seconds window ≡ window) where
  -- The answers are the same, and the states agree again.
  abbrev Same : Result (Unit {0}) × Option MemoryBucket → Result (Unit {0}) × S → Type 0
  Same memory other = (other.0 ≡ memory.0) × Agrees count now memory.1 other.1

  fresh-Same :
      (bucket : Option MemoryBucket) (s : S)
      → is_stale now bucket ≡ true
      → Agrees count now bucket s
      → Same
          (count_call limit window now bucket)
          (after_incr redis true limit window now (redis.incr now s))
  unfolding count_call
  fresh-Same bucket s e a =
      let none_yet : count now s ≡ 0 = ground (arith, a now (omega arith), e) in
      let step =
        after_first redis limit window now (redis.incr now s).0 (redis.incr now s).1 positive
          (laws.incr_answers now s ∙ ap suc none_yet) in
      rw (e, step)
        (
          refl,
          (λ t later. ground (
            arith,
            laws.expire_sets now t window (redis.incr now s).1 later
                ∙ ap (λ d. if ltb t (now + d) then count now (redis.incr now s).1 else 0) whole,
            laws.incr_stays now s,
            none_yet,
          )),
        )

  counting-Same :
      (b : MemoryBucket) (s : S)
      → 0 < b.count
      → is_stale now (some b) ≡ false
      → Agrees count now (some b) s
      → Same
          (count_call limit window now (some b))
          (after_incr redis true limit window now (redis.incr now s))
  unfolding count_call
  counting-Same b s c e a =
      let counted : count now s ≡ b.count = ground (arith, a now (omega arith), e) in
      let answer : (redis.incr now s).0 ≡ suc b.count = laws.incr_answers now s ∙ ap suc counted in
      let step =
        after_next redis limit window now (redis.incr now s).0 (redis.incr now s).1
          (omega (arith, answer, c)) in
      rw (e, step)
        (
          ap (λ (n : ℕ). require (leb n limit) limited) answer,
          (λ t later.
              ground
                (arith, laws.incr_keeps now t s (omega (arith, counted, c)) later, a t later, c)),
        )

  counted-Same :
      (bucket : Option MemoryBucket) (s : S)
      → HasCounted bucket
      → Agrees count now bucket s
      → Same
          (count_call limit window now bucket)
          (after_incr redis true limit window now (redis.incr now s))
  counted-Same none s c a = fresh-Same none s refl a
  counted-Same (some b) s c a = elim (Bool-cases (is_stale now (some b))) [
    | inl e ↦ fresh-Same (some b) s e a
    | inr e ↦ counting-Same b s c e a
  ]

window-whole :
    (window : ℤ) (k : ℕ)
    → positive_or window minute ≡ suc k * second
    → whole_seconds (positive_or window minute) ≡ positive_or window minute
window-whole window k e = rw e (ground arith)

-- While Redis answers and behaves as documented, both limiters admit and refuse the same calls if
-- the window is a whole number of seconds: from states that agree, a call gets the same answer from
-- both and leaves states that agree. The bucket is one that a call has made.
pub allow-allow_redis :
    {S : Type 0} (redis : Redis S) (count : Time → S → ℕ) (limit window : ℤ) (k : ℕ) (now : Time)
    (bucket : Option MemoryBucket) (s : S)
    → IsRedis redis count
    → positive_or window minute ≡ suc k * second
    → HasCounted bucket
    → Agrees count now bucket s
    → ((allow_redis redis true true limit window now s).0 ≡ (allow limit window now bucket).0)
      × Agrees count now
          (allow limit window now bucket).1
          (allow_redis redis true true limit window now s).1
unfolding allow allow_redis
allow-allow_redis redis count (negsuc n) window k now bucket s laws whole c a = (refl, a)
allow-allow_redis redis count (pos limit) window k now bucket s laws whole c a =
    elim (Bool-cases (limit == 0)) [
      | inl e ↦ rw e (refl, a)
      | inr e ↦ rw e (
          counted-Same redis count laws limit (positive_or window minute) now (ground (arith, e))
            (window-whole window k whole) bucket s c a)
    ]

-- The rest of a window that has admitted some calls.
rest_of_window :
    (limit : ℕ) (window : ℤ) (ts : List Time) (b : MemoryBucket)
    → 0 < limit
    → All (λ t. t < b.exp) ts
    → (passed (pos limit) window ts (some b)).0 ≤ limit - b.count
unfolding passed allow count_call ◌>>=◌
rest_of_window limit window [] b l h = omega arith
rest_of_window limit window (t ∷ ts) b l h =
    ground (
      arith,
      h.0,
      rest_of_window limit window ts (record { count = suc b.count; exp = b.exp }) l h.1,
    )

-- However many calls come within a window of the first one, at most `limit` of them pass.
pub allow_bounds :
    (limit : ℕ) (window : ℤ) (first : Time) (ts : List Time)
    → 0 < limit
    → All (λ t. t < first + positive_or window minute) ts
    → (passed (pos limit) window (first ∷ ts) none).0 ≤ limit
unfolding passed allow count_call ◌>>=◌
allow_bounds limit window first ts l h = ground (
  arith,
  rest_of_window limit window ts (record { count = 1; exp = first + positive_or window minute }) l
      h,
)
