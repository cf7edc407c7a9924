-- ===== src/Store/NimiqTx.antt =====
-- backend/internal/infrastructure/postgres/nimiqtx/consume.go: table consumed_nimiq_transactions,
-- whose primary key is the hash.
use nim_near.Prelude.{
  ℕ, ◌≡◌, refl, Bool, true, false, List, [], ◌∷◌, Option, none, some, arith, Text, text_eq,
  text_eq_iff, if◌then◌else◌, is_none,
}

-- Microseconds since the epoch, the resolution of TIMESTAMPTZ.
abbrev pub Time : Type 0
Time = ℕ

-- A duration that is not negative, in microseconds.
abbrev pub Duration : Type 0
Duration = ℕ

abbrev pub second : Duration
second = 1000000

abbrev pub minute : Duration
minute = 60000000

abbrev pub hour : Duration
hour = 3600000000

pub data Domain : Type 0 where
  event_purchase payment_request : Domain

abbrev pub domain_eq : Domain → Domain → Bool
domain_eq event_purchase event_purchase = true
domain_eq payment_request payment_request = true
domain_eq _ _ = false

pub record Consumed : Type 0 where
  pub transaction_hash : Text
  pub domain_type : Domain
  pub domain_id : ℕ
  pub created_at : Time

-- SELECT … WHERE transaction_hash = $1
unfoldable pub reservation : Text → List Consumed → Option Consumed
reservation h [] = none
reservation h (c ∷ cs) = if text_eq c.transaction_hash h then some c else reservation h cs

-- The INSERT of Consume. `none` is a violation of the primary key.
unfoldable pub consume : Text → Domain → ℕ → Time → List Consumed → Option (List Consumed)
consume h domain id now cs =
    if is_none (reservation h cs)
    then some (
        record { transaction_hash = h; domain_type = domain; domain_id = id; created_at = now }
        ∷ cs)
    else none

-- The hash belongs to this object.
abbrev pub BelongsTo : Text → Domain → ℕ → List Consumed → Type 0
BelongsTo h domain id cs =
    (c : Consumed) × (reservation h cs ≡ some c) × (c.domain_type ≡ domain) × (c.domain_id ≡ id)

pub consume-BelongsTo :
    (h : Text) (domain : Domain) (id : ℕ) (now : Time) (cs cs' : List Consumed)
    → consume h domain id now cs ≡ some cs'
    → BelongsTo h domain id cs'
unfolding consume reservation
consume-BelongsTo h domain id now cs cs' e = (
  record { transaction_hash = h; domain_type = domain; domain_id = id; created_at = now },
  ground (arith, text_eq_iff h h),
  refl,
  refl,
)

pub consume-keeps :
    (h : Text) (domain : Domain) (id : ℕ) (now : Time) (cs cs' : List Consumed) (k : Text)
    (d : Domain) (i : ℕ)
    → consume h domain id now cs ≡ some cs'
    → BelongsTo k d i cs
    → BelongsTo k d i cs'
unfolding consume reservation
consume-keeps h domain id now cs cs' k d i e (c, r, p, q) =
    (c, ground (arith, text_eq_iff h k), p, q)

-- One hash has one owner.
pub BelongsTo-unique :
    (h : Text) (d d' : Domain) (i i' : ℕ) (cs : List Consumed)
    → BelongsTo h d i cs
    → BelongsTo h d' i' cs
    → (d ≡ d') × (i ≡ i')
BelongsTo-unique h d d' i i' cs (c, r, p, q) (c', r', p', q') = (cc, cc)
