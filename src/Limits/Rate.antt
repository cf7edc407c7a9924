-- ===== src/Limits/Rate.antt =====
-- shared/ratelimit/limiter.go: MemoryLimiter and RedisLimiter, for one key. The buckets of
-- different keys do not meet. The mutex makes a call of the first atomic.
use nim_near.Prelude.{
  ℕ, ℤ, pos, negsuc, suc, ◌+◌, Bool, true, Option, none, some, List, [], ◌∷◌, leb, ◌==◌,
  if◌then◌else◌, Result, ok, err, Error, plain, coded, internal, rate_limited,
  authentication_rate_limited, require,
}
use nim_near.Store.{Time, Duration, minute}
use nim_near.UseCases.{positive_or}

-- limited
abbrev pub limited : Error
limited = coded rate_limited authentication_rate_limited

pub record MemoryBucket : Type 0 where
  pub count : ℕ
  pub exp : Time

-- `!ok || !now.Before(bucket.exp)`
abbrev pub is_stale : Time → Option MemoryBucket → Bool
is_stale now none = true
is_stale now (some b) = leb b.exp now

abbrev pub count_of : Option MemoryBucket → ℕ
count_of none = 0
count_of (some b) = b.count

abbrev pub exp_of : Option MemoryBucket → Time
exp_of none = 0
exp_of (some b) = b.exp

-- The calls that have a positive limit, with the bucket of the key.
unfoldable pub count_call :
    ℕ → Duration → Time → Option MemoryBucket → Result (Unit {0}) × Option MemoryBucket
count_call limit window now bucket =
    if is_stale now bucket then (ok tt, some (record { count = 1; exp = now + window })) else (
      require (leb (suc (count_of bucket)) limit) limited,
      some (record { count = suc (count_of bucket); exp = exp_of bucket }),
    )

-- MemoryLimiter.Allow: a limit that is not positive lets every call pass.
unfoldable pub allow : ℤ → ℤ → Time → Option MemoryBucket → Result (Unit {0}) × Option MemoryBucket
allow (negsuc n) window now bucket = (ok tt, bucket)
allow (pos limit) window now bucket =
    if limit == 0 then (ok tt, bucket) else count_call limit (positive_or window minute) now bucket

-- The two commands of Redis that the limiter sends for a key, on whatever state S Redis has. `up`
-- is whether Redis answers.
pub record Redis (S : Type 0) : Type 0 where
  pub incr : Time → S → ℕ × S
  pub expire : Time → Duration → S → S

-- After INCR: EXPIRE for the first call of a window.
unfoldable pub after_incr :
    {S : Type 0} → Redis S → Bool → ℕ → Duration → Time → ℕ × S → Result (Unit {0}) × S
after_incr redis up limit window now (count, s) =
    if count == 1
    then (if up
        then (require (leb count limit) limited, redis.expire now window s)
        else (err (plain internal), s))
    else (require (leb count limit) limited, s)

-- RedisLimiter.Allow
unfoldable pub allow_redis :
    {S : Type 0} → Redis S → Bool → Bool → ℤ → ℤ → Time → S → Result (Unit {0}) × S
allow_redis redis up up' (negsuc n) window now s = (ok tt, s)
allow_redis redis up up' (pos limit) window now s =
    if limit == 0
    then (ok tt, s)
    else if up
    then after_incr redis up' limit (positive_or window minute) now (redis.incr now s)
    else (err (plain internal), s)

-- The calls at these times, in order: how many of them passed, and the bucket after them.
unfoldable pub passed : ℤ → ℤ → List Time → Option MemoryBucket → ℕ × Option MemoryBucket
passed limit window [] bucket = (0, bucket)
passed limit window (t ∷ ts) bucket =
    let (answer, next) = allow limit window t bucket in
    let (n, last) = passed limit window ts next in
    ((elim answer [ ok _ ↦ suc n | err _ ↦ n ]), last)
