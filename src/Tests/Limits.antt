-- ===== src/Tests/Limits.antt =====
-- The limits at concrete inputs, with a Redis that is a counter and its end.
use nim_near.Prelude.{
  ℕ, pos, suc, ◌+◌, ◌≤◌, ◌<◌, ◌≡◌, refl, true, Bool, none, some, [], ◌∷◌, ltb, ◌==◌, if◌then◌else◌,
  ◌>>=◌, arith, Option, ok, err,
}
use nim_near.Store.{Time}
use nim_near.Limits.Rate.{Redis, after_incr, limited, allow, allow_redis, passed, count_call}
use nim_near.Limits.Window.{IsRedis, whole_seconds, Agrees, allow-allow_redis, allow_bounds}
use nim_near.Limits.Pages.{from_request, offset, from_request_bounds}

-- A value, and the time until which it is there, if it ends.
abbrev Key : Type 0
Key = ℕ × Option Time

abbrev is_live : Time → Option Time → Bool
is_live now none = true
is_live now (some t) = ltb now t

abbrev count : Time → Key → ℕ
count now (n, ends) = if is_live now ends then n else 0

abbrev a_redis : Redis Key
a_redis = record {
  incr = λ now k.
      if count now k == 0 then (1, (1, none)) else (suc (count now k), (suc (count now k), k.1));
  expire = λ now window k. (count now k, some (now + whole_seconds window));
}

next : (now : Time) (k : Key) → (a_redis.incr now k).0 ≡ suc (count now k)
next now (n, none) = ground arith
next now (n, some e) = ground arith

keeps :
    (now t : Time) (k : Key)
    → 0 < count now k
    → now ≤ t
    → count t (a_redis.incr now k).1 ≡ (if count t k == 0 then 0 else suc (count t k))
keeps now t (n, none) h later = ground (arith, h)
keeps now t (n, some e) h later = ground (arith, h, later)

stays : (now : Time) (k : Key) → count now (a_redis.incr now k).1 ≡ suc (count now k)
stays now (n, none) = ground arith
stays now (n, some e) = ground arith

a_redis-IsRedis : IsRedis a_redis count
a_redis-IsRedis = record {
  incr_answers = next;
  incr_keeps = keeps;
  expire_sets = λ now t window k later. refl;
  incr_stays = stays;
}

-- One call at 100 in a window of 60 seconds, and a second 20 seconds after it.
allow-allow_redis_example :
    ((allow_redis a_redis true true (pos 2) (pos 60000000) 20000100 (1, some 60000100)).0
      ≡ (allow (pos 2) (pos 60000000) 20000100 (some (record { count = 1; exp = 60000100 }))).0)
    × Agrees count 20000100
        (allow (pos 2) (pos 60000000) 20000100 (some (record { count = 1; exp = 60000100 }))).1
        (allow_redis a_redis true true (pos 2) (pos 60000000) 20000100 (1, some 60000100)).1
allow-allow_redis_example =
    allow-allow_redis a_redis count (pos 2) (pos 60000000) 59 20000100
      (some (record { count = 1; exp = 60000100 })) (1, some 60000100) a_redis-IsRedis (omega arith)
      (omega arith) (λ t later. ground arith)

-- A window of 1.5 seconds ends after one second in Redis: the second call within it passes there only.
cut_off_window :
    ((allow_redis a_redis true true
        (pos 1)
        (pos 1500000)
        1200000
        (allow_redis a_redis true true (pos 1) (pos 1500000) 0 (0, none)).1).0
      ≡ ok tt)
    × ((allow (pos 1) (pos 1500000) 1200000 (allow (pos 1) (pos 1500000) 0 none).1).0 ≡ err limited)
unfolding allow allow_redis after_incr count_call
cut_off_window = (refl, refl)

allow_bounds_example : (passed (pos 2) (pos 60) (100 ∷ 110 ∷ 120 ∷ 130 ∷ []) none).0 ≤ 2
allow_bounds_example =
    allow_bounds 2 (pos 60) 100 (110 ∷ 120 ∷ 130 ∷ []) (omega arith)
      (omega arith, (omega arith, (omega arith, tt)))

two_pass : (passed (pos 2) (pos 60) (100 ∷ 110 ∷ 120 ∷ 130 ∷ 160 ∷ []) none).0 ≡ 3
unfolding passed allow count_call ◌>>=◌
two_pass = refl

from_request_bounds_example :
    (1 ≤ (from_request (some (pos 3)) (some (pos 500))).page)
    × ((from_request (some (pos 3)) (some (pos 500))).page ≤ 1000000)
    × (1 ≤ (from_request (some (pos 3)) (some (pos 500))).per_page)
    × ((from_request (some (pos 3)) (some (pos 500))).per_page ≤ 100)
    × (offset (from_request (some (pos 3)) (some (pos 500))) < 2147483648)
from_request_bounds_example = from_request_bounds (some (pos 3)) (some (pos 500))
