-- ===== src/Guard.antt =====
-- The inbound guard: channels/joshua_channels/guard.py. Every adapter calls `check` before it
-- builds a turn. Log lines are left out; the lock makes each method one step.
mod TokenBucket
mod Ring
mod Cases
pub mod Rate
pub mod Admission
pub mod Records
pub mod Table
mod Tests
pub use TokenBucket.{RateLimiter, Bucket, cost}
unfoldable pub use TokenBucket.{allow}
unfoldable pub use Ring.{append_bounded}
use joshua_ai.Base.{
  ℕ, ◌+◌, String, Bool, true, false, ◌||◌, ◌&&◌, not, Option, none, some, List, [], ◌∷◌, ◌==◌, elem,
  String_eq, Pair_eq, if◌then◌else◌, is_some, ltb, leb, length, drop, is_empty,
}
use joshua_ai.Base.Dict
use joshua_ai.Base.Dict.{Dict}
use joshua_ai.Roster.{Roster, Person, Group, people_by_handle, groups_by_chat}

pub data ChatKind : Type 0 where
  dm group : ChatKind

-- REASON_UNKNOWN, REASON_RATE_LIMITED, REASON_TRUNCATED
pub data Reason : Type 0 where
  unknown_sender rate_limited truncated : Reason

abbrev pub recent_ring_size : ℕ
recent_ring_size = 200

abbrev pub unconfigured_ring_size : ℕ
unconfigured_ring_size = 50

pub record Verdict : Type 0 where
  pub allowed : Bool
  pub person_id : Option String
  pub group_id : Option String
  pub reason : Option Reason

pub record UnconfiguredGroup : Type 0 where
  pub channel_type : String
  pub chat_id : String
  pub chat_title : Option String
  pub at : ℕ

pub record Refusal : Type 0 where
  pub channel_type : String
  pub address : String
  pub chat_id : String
  pub reason : Reason
  pub at : ℕ

-- `_counts`: one counter for each reason.
pub record Counts : Type 0 where
  pub unknown : ℕ
  pub limited : ℕ
  pub cut : ℕ

pub record Guard : Type 0 where
  pub max_text_chars : ℕ
  pub rate : RateLimiter
  pub counts : Counts
  pub recent : List Refusal
  pub unconfigured : Dict (String × String) UnconfiguredGroup

-- The arguments of one call of `check`, with the readings of the two clocks that it makes.
pub record Inbound : Type 0 where
  pub channel_type : String
  pub sender_handle : String
  pub chat_id : String
  pub chat_kind : ChatKind
  pub chat_title : Option String
  pub text_len : ℕ
  pub now : ℕ
  pub wall : ℕ

unfoldable pub init : ℕ → ℕ → Guard
init max_text_chars per_minute = record {
  max_text_chars = max_text_chars;
  rate = record { per_minute = per_minute; buckets = [] };
  counts = record { unknown = 0; limited = 0; cut = 0 };
  recent = [];
  unconfigured = [];
}

unfoldable pub bump : Reason → Counts → Counts
bump unknown_sender c = record c { unknown = c.unknown + 1 }
bump rate_limited c = record c { limited = c.limited + 1 }
bump truncated c = record c { cut = c.cut + 1 }

-- `_refuse`, and `refuse` for a channel that resolves the sender itself.
unfoldable pub refuse : Guard → String → String → String → Reason → ℕ → Verdict × Guard
refuse s channel_type address chat_id why wall = (
  record { allowed = false; person_id = none; group_id = none; reason = some why },
  record s {
    counts = bump why s.counts;
    recent = append_bounded recent_ring_size s.recent (record {
      channel_type = channel_type;
      address = address;
      chat_id = chat_id;
      reason = why;
      at = wall;
    });
  },
)

-- `_group_for`
unfoldable pub group_for : Roster → String → String → ChatKind → String → Option String
group_for cfg channel_type chat_id dm sender_handle = none
group_for cfg channel_type chat_id group sender_handle =
    elim (groups_by_chat cfg channel_type chat_id) [
      | none ↦ none
      | some g ↦
          if not (is_empty g.members) && not (elem sender_handle g.members) then none else some g.id
    ]

-- `_note_unconfigured`; the oldest entry goes when the table is full.
unfoldable pub note_unconfigured : Guard → Inbound → Guard
note_unconfigured s m =
    let key : String × String = (m.channel_type, m.chat_id) in
    if Dict.has key s.unconfigured then s else record s {
      unconfigured =
          Dict.put key
            (record {
              channel_type = m.channel_type;
              chat_id = m.chat_id;
              chat_title = m.chat_title;
              at = m.wall;
            })
            (if leb unconfigured_ring_size (length s.unconfigured)
              then drop 1 s.unconfigured
              else s.unconfigured);
    }

-- The first step of `check`: a group chat that the roster does not list is noted.
unfoldable pub noted : Roster → Guard → Inbound → Guard
noted cfg s m = elim m.chat_kind [
  | dm ↦ s
  | group ↦
      if is_some (groups_by_chat cfg m.channel_type m.chat_id) then s else note_unconfigured s m
]

-- The end of `check`: the sender is known or admitted as a group.
unfoldable pub admit : Guard → Inbound → Option String → Option String → Verdict × Guard
admit s m person_id group_id =
    let (ok, rate) = allow s.rate (m.channel_type, m.sender_handle) m.now in
    let s' = record s { rate = rate } in
    if not ok
    then refuse s' m.channel_type m.sender_handle m.chat_id rate_limited m.wall
    else if ltb s.max_text_chars m.text_len
    then (
      record {
        allowed = true;
        person_id = person_id;
        group_id = group_id;
        reason = some truncated;
      },
      record s' { counts = bump truncated s.counts },
    )
    else (record { allowed = true; person_id = person_id; group_id = group_id; reason = none }, s')

unfoldable pub check : Roster → Guard → Inbound → Verdict × Guard
check cfg s m =
    let s' = noted cfg s m in
    elim (people_by_handle cfg m.channel_type m.sender_handle) [
      | some p ↦ admit s' m (some p.id) none
      | none ↦ elim (group_for cfg m.channel_type m.chat_id m.chat_kind m.sender_handle) [
        | none ↦ refuse s' m.channel_type m.sender_handle m.chat_id unknown_sender m.wall
        | some g ↦ admit s' m none (some g)
      ]
    ]

-- A day of traffic: each message is checked against the roster of its moment.
unfoldable pub run : Guard → List (Roster × Inbound) → Guard
run s [] = s
run s ((cfg, m) ∷ rest) = run (check cfg s m).1 rest
