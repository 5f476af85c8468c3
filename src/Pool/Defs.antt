-- ===== src/Pool/Defs.antt =====
-- The state of `ConversationManager` and each of its operations on the pool.
use joshua_ai.Base.{
  ℕ, ◌+◌, ◌-◌, String, Bool, true, false, not, ◌&&◌, ◌||◌, Option, some, none, List, [], ◌∷◌, ◌==◌,
  ℕ_eq, String_eq, Option_eq, leb, ltb, length, keep_if, if◌then◌else◌,
}
use joshua_ai.Base.Dict
use joshua_ai.Base.Dict.{Dict, values}

-- `ANTHROPIC_ENDPOINT`
abbrev pub anthropic : String
anthropic = "anthropic"

-- An `AgentSession`: its number, the SDK session that it resumes, and whether it has a client.
pub record Session : Type 0 where
  pub id : ℕ
  pub resume : Option String
  pub connected : Bool

pub record Conversation : Type 0 where
  pub id : String
  pub sdk_session_id : Option String
  pub inference_endpoint : Option String

-- `_Managed`; a time to live of 0 turns the reaper off, as a negative one does.
pub record Managed : Type 0 where
  pub conversation : Conversation
  pub session : Session
  pub locked : Bool
  pub last_used : ℕ
  pub idle_ttl : Option ℕ
  pub had_success : Bool
  pub memory_mtime : ℕ
  pub replace_pending : Bool
  pub replaced_at : Option ℕ
  pub endpoint : String

-- What a build finds: the server of the job, the profile's deadline, the newest of its files.
pub record Build : Type 0 where
  pub endpoint : String
  pub idle_ttl : Option ℕ
  pub newest_mtime : ℕ

-- Who holds `_pool_lock`, if anyone: a rebuild that waits for its new session, or a loop that waits
-- for a close. The turn that is to go on afterwards, if there is one, is named by its object.
pub data Section : Type 0 where
  free : Section
  rebuilding : ℕ → Build → Section
  closing : List ℕ → Option ℕ → Section

pub record Pool : Type 0 where
  -- every `_Managed` that was made, by its reference
  pub objects : Dict ℕ Managed
  -- `_pool`
  pub pool : Dict String ℕ
  pub next_ref : ℕ
  pub next_session : ℕ
  -- the turns that have their object and not yet its lock
  pub waiting : List ℕ
  -- the objects that `flush_sessions` has still to close
  pub flushed : List ℕ
  pub section : Section

abbrev pub new_pool : Pool
new_pool = record {
  objects = [];
  pool = [];
  next_ref = 0;
  next_session = 0;
  waiting = [];
  flushed = [];
  section = free;
}

pub record Settings : Type 0 where
  pub pool_max : ℕ
  pub session_idle_seconds : ℕ
  pub mcp_replace_seconds : ℕ

-- How a call of the agent ends; an answer may name the SDK session.
pub data Outcome : Type 0 where
  answered : Option String → Outcome
  raised timed_out cancelled : Outcome

-- A turn that runs: `AgentSession.run` connects a session that has no client.
abbrev pub connected : Managed → Managed
connected m = record m { session = record m.session { connected = true } }

abbrev pub connect_and_lock : ℕ → Managed → Managed
connect_and_lock now m = record (connected m) { locked = true; last_used = now }

abbrev pub closed : Managed → Managed
closed m = record m { session = record m.session { connected = false } }

unfoldable pub modify : ℕ → (Managed → Managed) → Dict ℕ Managed → Dict ℕ Managed
modify ref f [] = []
modify ref f ((r, m) ∷ objects) =
    if r == ref then (r, f m) ∷ objects else (r, m) ∷ modify ref f objects

unfoldable pub is_locked : Pool → ℕ → Bool
is_locked s ref = elim (Dict.get ref s.objects) [ none ↦ false | some m ↦ m.locked ]

-- `_resume_on`: a session of another server is not resumed; a NULL is `anthropic`.
unfoldable pub resume_on : Conversation → Option String → String → Option String
resume_on c none endpoint = none
resume_on c (some id) endpoint =
    let stored : String = elim c.inference_endpoint [ none ↦ anthropic | some e ↦ e ] in
    if stored == endpoint then some id else none

abbrev pub new_session : ℕ → Conversation → Option String → Build → Session
new_session id c resume b = record {
  id = id;
  resume = resume_on c resume b.endpoint;
  connected = false;
}

-- `_build_session` and `_Built.apply` on an object.
abbrev pub apply_build : ℕ → Option String → Build → Managed → Managed
apply_build id resume b m = record m {
  session = new_session id m.conversation resume b;
  idle_ttl = b.idle_ttl;
  memory_mtime = b.newest_mtime;
  endpoint = b.endpoint;
}

abbrev pub built : ℕ → Conversation → ℕ → Build → Managed
built id c now b = record {
  conversation = c;
  session = new_session id c c.sdk_session_id b;
  locked = false;
  last_used = now;
  idle_ttl = b.idle_ttl;
  had_success = false;
  memory_mtime = b.newest_mtime;
  replace_pending = false;
  replaced_at = none;
  endpoint = b.endpoint;
}

-- `_rebuild_locked`; the old client is closed and dropped.
abbrev pub rebuilt : ℕ → Build → Managed → Managed
rebuilt id b m = record (apply_build id m.conversation.sdk_session_id b m) {
  replace_pending = false;
}

-- `_refresh_if_stale_locked`
abbrev pub is_stale : Build → Managed → Bool
is_stale b m = not m.locked && (m.replace_pending || ltb m.memory_mtime b.newest_mtime)

-- Close a session and take it out of the pool.
unfoldable pub drop_session : ℕ → Pool → Pool
drop_session ref s = elim (Dict.get ref s.objects) [
  | none ↦ s
  | some m ↦ record s {
    objects = modify ref closed s.objects;
    pool = Dict.remove m.conversation.id s.pool;
  }
]

abbrev pub last_used_of : Pool → ℕ → ℕ
last_used_of s ref = elim (Dict.get ref s.objects) [ none ↦ 0 | some m ↦ m.last_used ]

-- `sorted(…, key=lambda m: m.last_used)`, which keeps the order of equal keys.
unfoldable pub insert_by : (ℕ → ℕ) → ℕ → List ℕ → List ℕ
insert_by key x [] = x ∷ []
insert_by key x (y ∷ ys) = if leb (key x) (key y) then x ∷ y ∷ ys else y ∷ insert_by key x ys

unfoldable pub sort_by : (ℕ → ℕ) → List ℕ → List ℕ
sort_by key [] = []
sort_by key (x ∷ xs) = insert_by key x (sort_by key xs)

unfoldable pub idle : Pool → List ℕ
idle s = sort_by (last_used_of s) (keep_if (λ ref. not (is_locked s ref)) (values s.pool))

-- `_enforce_pool_limit_locked`: the loop takes the least recently used of the idle sessions while
-- `n`, the size of the pool, is over the limit.
unfoldable pub victims : ℕ → ℕ → List ℕ → List ℕ
victims limit n [] = []
victims limit n (ref ∷ refs) =
    let rest = victims limit (n - 1) refs in if ltb limit n then ref ∷ rest else []

abbrev pub added : Conversation → ℕ → Build → Pool → Pool
added c now b s = record s {
  objects = Dict.put s.next_ref (built s.next_session c now b) s.objects;
  pool = Dict.put c.id s.next_ref s.pool;
  next_ref = s.next_ref + 1;
  next_session = s.next_session + 1;
}

-- The stale session of an object, if it is stale.
unfoldable pub is_stale_ref : Build → Pool → ℕ → Bool
is_stale_ref b s ref = elim (Dict.get ref s.objects) [ none ↦ false | some m ↦ is_stale b m ]

-- `_enforce_pool_limit_locked` starts: what it will close, chosen before the first close.
abbrev pub over_limit : ℕ → Pool → List ℕ
over_limit limit s = victims limit (length s.pool) (idle s)

-- `_get_or_create`, up to its first wait under the pool's lock. A new session touches nothing that
-- is shared while it is built.
unfoldable pub get_or_create : Settings → Conversation → ℕ → Build → Pool → Pool
get_or_create cfg c now b s =
    let grown = added c now b s in
    elim (Dict.get c.id s.pool) [
      | some ref ↦
          if is_stale_ref b s ref
          then record s { section = rebuilding ref b }
          else record s { waiting = ref ∷ s.waiting }
      | none ↦ record grown { section = closing (over_limit cfg.pool_max grown) (some s.next_ref) }
    ]

-- `_reap_idle`
abbrev pub is_idle : Settings → ℕ → Managed → Bool
is_idle cfg now m =
    let ttl : ℕ = elim m.idle_ttl [ none ↦ cfg.session_idle_seconds | some t ↦ t ] in
    ltb 0 ttl && not m.locked && ltb ttl (now - m.last_used)

unfoldable pub is_idle_ref : Settings → ℕ → Pool → ℕ → Bool
is_idle_ref cfg now s ref = elim (Dict.get ref s.objects) [
  | none ↦ false
  | some m ↦ is_idle cfg now m
]

unfoldable pub reap_idle : Settings → ℕ → Pool → Pool
reap_idle cfg now s = record s {
  section = closing (keep_if (is_idle_ref cfg now s) (values s.pool)) none;
}

-- What the holder of the pool's lock does next: `_rebuild_locked` puts the new session on its
-- object and closes the old one; a loop closes the next session, or gives the lock back.
unfoldable pub proceed : Section → Pool → Pool
proceed free s = s
proceed (rebuilding ref b) s = record s {
  objects = modify ref (rebuilt s.next_session b) s.objects;
  next_session = s.next_session + 1;
  waiting = ref ∷ s.waiting;
  section = free;
}
proceed (closing (ref ∷ refs) next) s = record (drop_session ref s) { section = closing refs next }
proceed (closing [] none) s = record s { section = free }
proceed (closing [] (some ref)) s = record s { section = free; waiting = ref ∷ s.waiting }

abbrev pub is_free : Section → Bool
is_free free = true
is_free (rebuilding ref b) = false
is_free (closing refs next) = false
