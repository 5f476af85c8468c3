-- ===== src/Tasks/Updates.antt =====
-- What an update does to a row that is looked up, and to the set of ids.
use joshua_ai.Base.{
  String, Bool, false, none, some, List, [], ◌∷◌, ◌≡◌, refl, String_eq, if◌then◌else◌, arith, All,
}
use joshua_ai.Tasks.{Task, update_where, get_task, ids, is_processing}

-- An update that leaves the ids alone acts on the row that a lookup finds.
pub get_task-update_where :
    (p : Task → Bool) (f : Task → Task) (id : String) (ts : List Task)
    → ((t : Task) → (f t).id ≡ t.id)
    → get_task id (update_where p f ts)
      ≡ (elim (get_task id ts) [ none ↦ none | some t ↦ some (if p t then f t else t) ])
unfolding get_task update_where
get_task-update_where p f id [] same = refl
get_task-update_where p f id (t ∷ ts) same =
    ground (arith, same t, get_task-update_where p f id ts same)

pub ids-update_where :
    (p : Task → Bool) (f : Task → Task) (ts : List Task)
    → ((t : Task) → (f t).id ≡ t.id)
    → ids (update_where p f ts) ≡ ids ts
unfolding update_where
ids-update_where p f [] same = refl
ids-update_where p f (t ∷ ts) same = ground (arith, same t, ids-update_where p f ts same)

-- No row is in the state that a claimed task is in.
abbrev pub NoneProcessing : List Task → Type 0
NoneProcessing ts = All (λ t. is_processing t.status ≡ false) ts
