-- ===== src/Pool/Tests.antt =====
-- A pool of one session, and each theorem on it.
use joshua_ai.Base.{
  String, false, some, none, List, [], ◌∷◌, ◌++◌, ◌≡◌, refl, arith, ℕ_eq, String_eq,
}
use joshua_ai.Base.Dict
use joshua_ai.Base.Dict.{Dict, values}
use joshua_ai.Pool.Defs.{
  Conversation, Managed, Pool, new_pool, Settings, Build, answered, raised, modify, is_locked,
  resume_on, is_stale_ref, drop_session, insert_by, sort_by, idle, victims, get_or_create,
  is_idle_ref, reap_idle, proceed, built, connect_and_lock,
}
use joshua_ai.Pool.Steps.{
  Event, start_turn, take_lock, end_turn, go_on, reap, flush, check_mcp_failed, settled,
  run_session, run_with_retry, without, step, run,
}
use joshua_ai.Pool.Running.{run_untouched}
use joshua_ai.Pool.Orphans.{Runs, cold_turn, cold_turns_overlap}
use joshua_ai.Roster.{Roster, Person, member}
use joshua_ai.Pool.Roles.{Chat, after_colon, chat_id}

program : Unit {0}
unfolding Dict.get Dict.put Dict.has Dict.remove modify is_locked resume_on is_stale_ref
    drop_session insert_by sort_by idle victims get_or_create is_idle_ref reap_idle check_mcp_failed
    settled run_session run_with_retry proceed without step run after_colon chat_id
program = tt

abbrev settings : Settings
settings = record { pool_max = 1; session_idle_seconds = 60; mcp_replace_seconds = 0 }

abbrev talk : String → Conversation
talk id = record { id = id; sdk_session_id = none; inference_endpoint = none }

abbrev files : Build
files = record { endpoint = "anthropic"; idle_ttl = none; newest_mtime = 0 }

-- A turn of conversation a runs; the pool is full.
abbrev one_running : Pool
one_running = run settings (start_turn (talk "a") 5 files ∷ go_on ∷ take_lock 0 6 ∷ []) new_pool

abbrev object : Managed
object = connect_and_lock 6 (built 0 (talk "a") 5 files)

-- The reaper comes late, and another conversation starts.
abbrev meanwhile : List Event
meanwhile = reap 500 ∷ go_on ∷ start_turn (talk "b") 501 files ∷ go_on ∷ go_on ∷ flush ∷ []

run_untouched_example : Dict.get 0 (run settings meanwhile one_running).objects ≡ some object
unfolding program
run_untouched_example =
    run_untouched settings 0 object meanwhile one_running refl refl (omega arith) refl
      (tt, (tt, (tt, (tt, (tt, (tt, tt))))))

cold_turns_overlap_example :
    let t =
      run settings (cold_turn (talk "b") 7 files 1 ++ cold_turn (talk "b") 7 files 2) one_running in
    Runs (talk "b") 1 t × Runs (talk "b") 2 t × (t.pool ≡ one_running.pool)
unfolding program
cold_turns_overlap_example =
    cold_turns_overlap settings (talk "b") 7 files one_running (refl, tt) refl refl refl refl
      (omega arith)

-- An idle session is reaped.
reaped :
    (run settings
      (end_turn 0 10 (talk "a") files false (answered (some "x")) raised
        ∷ reap 500
        ∷ go_on
        ∷ go_on
        ∷ [])
      one_running).pool
    ≡ []
unfolding program
reaped = refl

abbrev alex : Person
alex = record { id = "alex"; name = "Alex"; role = member; handles = [] }

abbrev household : Roster
household = record { people = alex ∷ []; groups = [] }

abbrev direct : Chat
direct = record {
  is_shared = false;
  channel_type = "telegram";
  channel_id = "telegram:42";
  person_id = some "alex";
}

bare_chat_id : chat_id "telegram:-100" ≡ "-100"
unfolding program
bare_chat_id = refl
