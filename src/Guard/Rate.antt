-- ===== src/Guard/Rate.antt =====
-- The rate limit as a sender meets it: how many messages of one handle `check` lets in.
use joshua_ai.Base.{
  ℕ, ◌+◌, ◌≤◌, String, ◌&&◌, List, [], ◌∷◌, ◌≡◌, ◌==◌, if◌then◌else◌, arith, String_eq, Pair_eq,
}
use joshua_ai.Roster.{Roster}
use joshua_ai.Guard.{Guard, Inbound, Verdict, check, noted, note_unconfigured}
use joshua_ai.Guard.TokenBucket.{RateLimiter, cost, level}

abbrev pub sender : Inbound → String × String
sender m = (m.channel_type, m.sender_handle)

-- The messages of one sender that a run lets in.
abbrev pub granted : String × String → Guard → List (Roster × Inbound) → ℕ
granted key s [] = 0
granted key s ((cfg, m) ∷ rest) =
    (if sender m == key && (check cfg s m).0.allowed then 1 else 0)
    + granted key (check cfg s m).1 rest

-- The readings of the monotonic clock do not fall, from `t` on.
abbrev pub Ordered : ℕ → List (Roster × Inbound) → Type 0
Ordered t [] = Unit {0}
Ordered t ((cfg, m) ∷ rest) = (t ≤ m.now) × Ordered m.now rest

-- The last reading.
abbrev pub until : ℕ → List (Roster × Inbound) → ℕ
until t [] = t
until t ((cfg, m) ∷ rest) = until m.now rest

pub rate-noted : (cfg : Roster) (s : Guard) (m : Inbound) → (noted cfg s m).rate ≡ s.rate
unfolding noted note_unconfigured
rate-noted cfg s m = ground arith

abbrev taken : String × String → Inbound → Verdict → ℕ
taken key m v = if sender m == key && v.allowed then cost else 0

-- One step takes from a key's level at most what its verdict grants, and keeps the rate.
abbrev Charges : String × String → RateLimiter → Inbound → Verdict × Guard → Type 0
Charges key l m r =
    (level r.1.rate key m.now + taken key m r.0 ≤ level l key m.now)
    × (r.1.rate.per_minute ≡ l.per_minute)
