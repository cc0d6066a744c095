-- ===== src/Session/Dispatch/Linked.antt =====
-- The three tables of `RequestTracking` hold the same requests.
use mango_protocol.Common.{
  ℕ, suc, Text, List, [], ◌∷◌, true, false, not, ◌==◌, length, ◌≡◌, ◌≢◌, refl, sym, ap, ◌∙◌, none,
  some, Bool-cases, inl, inr, get, remove, Dict, nat_eq, list_eq, arith, remove_absent,
  get-remove_ne, get_first, get_next, remove_first, remove_next, subst,
}
use mango_protocol.Wire.Close.{contains}
use mango_protocol.Session.State.{ActiveRequest}
use mango_protocol.Session.Shared.{retain}

-- Each spawned task answers one request, which is active, and no two answer the same one.
pub data Linked : List ℕ → Dict ℕ Text → Dict Text ActiveRequest → Type 0 where
  idle : Linked [] [] []
  answering :
      (tasks : List ℕ) (by_task_id : Dict ℕ Text) (active : Dict Text ActiveRequest) (task : ℕ)
      (id : Text) (request : ActiveRequest)
      → Linked tasks by_task_id active
      → get task by_task_id ≡ none
      → get id active ≡ none
      → Linked (task ∷ tasks) ((task, id) ∷ by_task_id) ((id, request) ∷ active)

abbrev pub without : ℕ → List ℕ → List ℕ
without task tasks = retain (λ t. not (t == task)) tasks

pub fresh-get :
    (task : ℕ) (tasks : List ℕ) (by_task_id : Dict ℕ Text) (active : Dict Text ActiveRequest)
    → Linked tasks by_task_id active
    → contains tasks task ≡ false
    → get task by_task_id ≡ none
unfolding get contains
fresh-get task _ _ _ idle h = refl
fresh-get task _ _ _ (answering ts by act t id r linked e f) h =
    ground (arith, fresh-get task ts by act linked)

absent-without :
    (task : ℕ) (tasks : List ℕ) (by_task_id : Dict ℕ Text) (active : Dict Text ActiveRequest)
    → Linked tasks by_task_id active
    → get task by_task_id ≡ none
    → without task tasks ≡ tasks
unfolding get retain
absent-without task _ _ _ idle h = refl
absent-without task _ _ _ (answering ts by act t id r linked e f) h =
    ground (arith, absent-without task ts by act linked)

pub Linked-length :
    (tasks : List ℕ) (by_task_id : Dict ℕ Text) (active : Dict Text ActiveRequest)
    → Linked tasks by_task_id active
    → length tasks ≡ length active
Linked-length _ _ _ idle = refl
Linked-length _ _ _ (answering ts by act t id r linked e f) =
    ap suc (Linked-length ts by act linked)

-- What the tables say of a task, and what is left when it is taken out of them.
pub record Settled (task : ℕ) (tasks : List ℕ) (by_task_id : Dict ℕ Text)
    (active : Dict Text ActiveRequest) : Type 0 where
  pub id : Text
  pub request : ActiveRequest
  pub answers : get task by_task_id ≡ some id
  pub active_request : get id active ≡ some request
  pub left : Linked (without task tasks) (remove task by_task_id) (remove id active)
  pub one_fewer : length active ≡ suc (length (remove id active))

without_first : (task : ℕ) (tasks : List ℕ) → without task (task ∷ tasks) ≡ without task tasks
unfolding retain
without_first task tasks = ground arith

without_next :
    (t task : ℕ) (tasks : List ℕ) → t ≢ task → without task (t ∷ tasks) ≡ t ∷ without task tasks
unfolding retain
without_next t task tasks h = ground arith

module _ (t : ℕ) (tasks : List ℕ) (by : Dict ℕ Text) (act : Dict Text ActiveRequest) (id : Text)
    (r : ActiveRequest) (e : get t by ≡ none) (f : get id act ≡ none) where
  settle_first : Linked tasks by act → Settled t (t ∷ tasks) ((t, id) ∷ by) ((id, r) ∷ act)
  settle_first linked = record {
    id = id;
    request = r;
    answers = get_first t id by;
    active_request = get_first id r act;
    left =
        rw
          (
            without_first t tasks,
            absent-without t tasks by act linked e,
            remove_first t id by,
            remove_absent t by e,
            remove_first id r act,
            remove_absent id act f,
          )
          linked;
    one_fewer = rw (remove_first id r act, remove_absent id act f) refl;
  }

  settle_later :
      (task : ℕ)
      → t ≢ task
      → Settled task tasks by act
      → Settled task (t ∷ tasks) ((t, id) ∷ by) ((id, r) ∷ act)
  settle_later task ne s =
      let other : id ≢ s.id = λ h. cc in
      record {
        id = s.id;
        request = s.request;
        answers = get_next t task id by ne ∙ s.answers;
        active_request = get_next id s.id r act other ∙ s.active_request;
        left =
            rw
              (
                without_next t task tasks ne,
                remove_next t task id by ne,
                remove_next id s.id r act other,
              )
              (answering _ _ _ t id r s.left (get-remove_ne task t by (λ h. ne (sym h)) ∙ e)
                (get-remove_ne s.id id act (λ h. other (sym h)) ∙ f));
        one_fewer = rw (remove_next id s.id r act other) (ap suc s.one_fewer);
      }

pub settle :
    (task : ℕ) (tasks : List ℕ) (by_task_id : Dict ℕ Text) (active : Dict Text ActiveRequest)
    → Linked tasks by_task_id active
    → contains tasks task ≡ true
    → Settled task tasks by_task_id active
unfolding contains
settle task _ _ _ idle h = absurd (ground arith)
settle task _ _ _ (answering ts by act t id r linked e f) h = elim (Bool-cases (t == task)) [
  | inl same ↦
      let k : t ≡ task = ground arith in
      subst (λ n. Settled n (t ∷ ts) ((t, id) ∷ by) ((id, r) ∷ act)) k
        (settle_first t ts by act id r e f linked)
  | inr ne ↦
      settle_later t ts by act id r e f task (ground arith)
        (settle task ts by act linked (ground arith))
]
