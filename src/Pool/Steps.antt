-- ===== src/Pool/Steps.antt =====
-- The turns of core/joshua_core/engine/manager.py, and the events that change the pool.
use joshua_ai.Base.{
  ℕ, ◌+◌, ◌-◌, String, Bool, true, false, not, ◌&&◌, ◌||◌, Option, some, none, List, [], ◌∷◌, ◌++◌,
  ◌==◌, ℕ_eq, String_eq, Option_eq, leb, ltb, elem, if◌then◌else◌,
}
use joshua_ai.Base.Dict.{values}
use joshua_ai.Pool.Defs.{
  Conversation, Managed, Build, Pool, Settings, Outcome, connected, connect_and_lock, closed,
  modify, is_locked, apply_build, get_or_create, reap_idle, proceed, is_free, answered, raised,
  timed_out, cancelled,
}

-- `_check_mcp_failed` after a turn, with the client's answer.
unfoldable pub check_mcp_failed : Settings → Bool → ℕ → Managed → Managed
check_mcp_failed cfg failed now m =
    let recent : Bool = elim m.replaced_at [
      | none ↦ false
      | some at ↦ ltb (now - at) cfg.mcp_replace_seconds
    ] in
    if leb cfg.mcp_replace_seconds 0 || m.replace_pending || not failed || recent
    then m
    else record m { replace_pending = true; replaced_at = some now }

-- The rest of `run_turn` once the call gave a result.
unfoldable pub settled : Option String → ℕ → Managed → Managed
settled none now m = record m { had_success = true; last_used = now }
settled (some id) now m =
    let moved = record m {
      had_success = true;
      last_used = now;
      conversation = record m.conversation {
        sdk_session_id = some id;
        inference_endpoint = some m.endpoint;
      };
    } in
    if id == "" || some id == m.conversation.sdk_session_id
    then record m { had_success = true; last_used = now }
    else moved

-- `_run_session` and what follows it, on the object of the turn; an exception leaves the rest out.
unfoldable pub run_session : Settings → Bool → ℕ → Outcome → Managed → Managed
run_session cfg failed now (answered id) m = check_mcp_failed cfg failed now (settled id now m)
run_session cfg failed now raised m = m
run_session cfg failed now timed_out m =
    check_mcp_failed cfg failed now
      (settled none now (record (closed m) { replace_pending = true }))
run_session cfg failed now cancelled m = record (closed m) { replace_pending = true }

-- `_run_with_resume_retry`: a first turn that raises on a resumed session runs once more, on a
-- session built without it. `asked` is the conversation that the turn was called with.
unfoldable pub run_with_retry :
    Settings → Bool → ℕ → ℕ → Build → Conversation → Outcome → Outcome → Managed → Managed
run_with_retry cfg failed now id b asked raised second m =
    let again = run_session cfg failed now second (connected (apply_build id none b m)) in
    if m.had_success || asked.sdk_session_id == none then m else again
run_with_retry cfg failed now id b asked first second m = run_session cfg failed now first m

pub data Event : Type 0 where
  -- a turn asks for its object
  start_turn : Conversation → ℕ → Build → Event
  -- a waiting turn takes the lock of its object
  take_lock : ℕ → ℕ → Event
  -- a running turn ends and gives the lock back; the second outcome is that of the retry
  end_turn : ℕ → ℕ → Conversation → Build → Bool → Outcome → Outcome → Event
  -- the holder of the pool's lock goes on
  go_on : Event
  reap : ℕ → Event
  flush : Event
  -- `_close_when_idle` of one flushed object
  close_flushed : ℕ → Event

-- A list without one of its entries.
unfoldable pub without : ℕ → List ℕ → List ℕ
without x [] = []
without x (y ∷ ys) = if y == x then ys else y ∷ without x ys

-- An event that is not enabled changes nothing.
unfoldable pub step : Settings → Event → Pool → Pool
step cfg (start_turn c now b) s = if is_free s.section then get_or_create cfg c now b s else s
step cfg (take_lock ref now) s =
    if elem ref s.waiting && not (is_locked s ref)
    then record s {
      waiting = without ref s.waiting;
      objects = modify ref (connect_and_lock now) s.objects;
    }
    else s
step cfg (end_turn ref now asked b failed first second) s =
    if is_locked s ref
    then record s {
      objects =
          modify ref
            (λ m. record (run_with_retry cfg failed now s.next_session b asked first second m) {
              locked = false;
            })
            s.objects;
      next_session = s.next_session + 1;
    }
    else s
step cfg go_on s = proceed s.section s
step cfg (reap now) s = if is_free s.section then reap_idle cfg now s else s
step cfg flush s =
    if is_free s.section then record s { pool = []; flushed = s.flushed ++ values s.pool } else s
step cfg (close_flushed ref) s =
    if elem ref s.flushed && not (is_locked s ref)
    then record s { flushed = without ref s.flushed; objects = modify ref closed s.objects }
    else s

unfoldable pub run : Settings → List Event → Pool → Pool
run cfg [] s = s
run cfg (e ∷ es) s = run cfg es (step cfg e s)
