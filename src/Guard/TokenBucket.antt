-- ===== src/Guard/TokenBucket.antt =====
-- `_RateLimiter` of channels/joshua_channels/guard.py: one token bucket for each key. The source
-- counts tokens and seconds in floats. Here both are exact: the clock counts ticks, `hz` of them in
-- a second, and a bucket counts in units of 1 / (60 * hz) token, so a refill of
-- `elapsed * (rate / 60)` tokens is `elapsed * per_minute` units.
use joshua_ai.Base.{
  ℕ, ◌+◌, ◌-◌, ◌*◌, ◌≤◌, ◌<◌, String, Bool, true, false, Option, none, some, ◌≡◌, if◌then◌else◌,
  leb, arith, String_eq, Pair_eq, ◌==◌, refl, ap, beq_self,
}
use Prim.Native.Nat.{min}
use native.Mathlib.Nat.{le_trans, le_of_eq, mul-le-mul_right, add-mul, sub_self}
use joshua_ai.Base.Dict
use joshua_ai.Base.Dict.{Dict}

-- Clock ticks in a second.
abbrev pub hz : ℕ
hz = 1000000

-- One token, in units.
abbrev pub cost : ℕ
cost = 60 * hz

pub record Bucket : Type 0 where
  pub tokens : ℕ
  pub updated_at : ℕ

pub record RateLimiter : Type 0 where
  pub per_minute : ℕ
  pub buckets : Dict (String × String) Bucket

abbrev pub capacity : RateLimiter → ℕ
capacity l = l.per_minute * cost

-- What a bucket holds at a time, before anything is taken.
unfoldable pub refilled : RateLimiter → Bucket → ℕ → ℕ
refilled l b now = min (capacity l) (b.tokens + (now - b.updated_at) * l.per_minute)

-- One call against the bucket of its key, if there is one: is it allowed, and the bucket after it.
unfoldable pub spend : RateLimiter → Option Bucket → ℕ → Bool × Bucket
spend l none now = (true, record { tokens = capacity l - cost; updated_at = now })
spend l (some b) now =
    let tokens = refilled l b now in
    if leb cost tokens
    then (true, record { tokens = tokens - cost; updated_at = now })
    else (false, record { tokens = tokens; updated_at = now })

-- A rate of zero disables the limit.
unfoldable pub allow : RateLimiter → String × String → ℕ → Bool × RateLimiter
allow l key now =
    let r = spend l (Dict.get key l.buckets) now in
    if leb l.per_minute 0
    then (true, l)
    else (r.0, record l { buckets = Dict.put key r.1 l.buckets })

-- The units that a key could spend at a time: a key with no bucket has a full one.
unfoldable pub available : RateLimiter → Option Bucket → ℕ → ℕ
available l none now = capacity l
available l (some b) now = refilled l b now

unfoldable pub level : RateLimiter → String × String → ℕ → ℕ
level l key now = available l (Dict.get key l.buckets) now

pub level-le-capacity :
    (l : RateLimiter) (key : String × String) (now : ℕ) → level l key now ≤ capacity l
unfolding level available refilled
level-le-capacity l key now = ground arith

pub rate-allow :
    (l : RateLimiter) (key : String × String) (now : ℕ)
    → (allow l key now).1.per_minute ≡ l.per_minute
unfolding allow
rate-allow l key now = ground arith

earned_mono : (t u x r : ℕ) → t ≤ u → (u - x) * r ≤ (t - x) * r + (u - t) * r
earned_mono t u x r h =
    le_trans (mul-le-mul_right r (omega arith)) (le_of_eq (add-mul (t - x) (u - t) r))

available_wait :
    (l : RateLimiter) (o : Option Bucket) (t u : ℕ)
    → t ≤ u
    → available l o u ≤ available l o t + (u - t) * l.per_minute
unfolding available refilled
available_wait l none t u h = omega arith
available_wait l (some b) t u h = omega (arith, earned_mono t u b.updated_at l.per_minute h)

-- Waiting earns at most `per_minute` units a tick.
pub level_wait :
    (l : RateLimiter) (key : String × String) (t u : ℕ)
    → t ≤ u
    → level l key u ≤ level l key t + (u - t) * l.per_minute
unfolding level
level_wait l key t u h = available_wait l (Dict.get key l.buckets) t u h

refilled_fresh :
    (l : RateLimiter) (tokens now : ℕ)
    → tokens ≤ capacity l
    → refilled l (record { tokens = tokens; updated_at = now }) now ≡ tokens
unfolding refilled
refilled_fresh l tokens now h = omega (arith, ap (λ (k : ℕ). k * l.per_minute) (sub_self now))

refilled-le-capacity : (l : RateLimiter) (b : Bucket) (now : ℕ) → refilled l b now ≤ capacity l
unfolding refilled
refilled-le-capacity l b now = omega arith

available-spend :
    (l : RateLimiter) (o : Option Bucket) (now : ℕ)
    → 0 < l.per_minute
    → available l (some (spend l o now).1) now + (if (spend l o now).0 then cost else 0)
      ≡ available l o now
unfolding available spend
available-spend l none now h = omega (arith, refilled_fresh l (capacity l - cost) now)
available-spend l (some b) now h =
    let tokens = refilled l b now in
    ground (
      arith,
      refilled-le-capacity l b now,
      refilled_fresh l tokens now,
      refilled_fresh l (tokens - cost) now,
    )

-- With the limit on, a call writes the bucket that `spend` leaves.
allow_lem :
    (l : RateLimiter) (key : String × String) (now : ℕ)
    → 0 < l.per_minute
    → let r = spend l (Dict.get key l.buckets) now in
      allow l key now ≡ (r.0, record l { buckets = Dict.put key r.1 l.buckets })
unfolding allow
allow_lem l key now h = ground arith

-- What a bucket holds does not depend on the others.
available_buckets :
    (l : RateLimiter) (bs : Dict (String × String) Bucket) (o : Option Bucket) (t : ℕ)
    → available (record l { buckets = bs }) o t ≡ available l o t
unfolding available refilled
available_buckets l bs none t = refl
available_buckets l bs (some b) t = refl

-- What a call takes from the key's level is one token if it is allowed, and nothing else.
pub level-allow_self :
    (l : RateLimiter) (key : String × String) (now : ℕ)
    → 0 < l.per_minute
    → level (allow l key now).1 key now + (if (allow l key now).0 then cost else 0)
      ≡ level l key now
level-allow_self l key now h =
    let r = spend l (Dict.get key l.buckets) now in
    rw (allow_lem l key now h) (
      unfold level in
      rw (Dict.get-put key key r.1 l.buckets, beq_self key)
        (unfold available refilled in available-spend l (Dict.get key l.buckets) now h))

-- Nor does it touch any other key.
pub level-allow_ne :
    (l : RateLimiter) (key other : String × String) (now t : ℕ)
    → 0 < l.per_minute
    → (key == other) ≡ false
    → level (allow l key now).1 other t ≡ level l other t
level-allow_ne l key other now t h ne =
    let r = spend l (Dict.get key l.buckets) now in
    rw (allow_lem l key now h) (
      unfold level in
      rw (Dict.get-put key other r.1 l.buckets, ne)
        (available_buckets l (Dict.put key r.1 l.buckets) (Dict.get other l.buckets) t))
