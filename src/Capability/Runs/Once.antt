-- ===== src/Capability/Runs/Once.antt =====
-- The events of the calls of src/engine/capability-execution-coordinator.mjs.
use ai_core.Base.{
  String, false, Option, none, some, List, [], ◌∷◌, ◌++◌, ◌==◌, ◌≡◌, refl, ap, subst, sym, ◌∙◌,
  arith, inl, inr, Bool-cases, if◌then◌else◌,
}
use ai_core.Base.Result.{ok}
use ai_core.Workflow.Spec.{Workflow}
use ai_core.Workflow.Inspect.{Host}
use ai_core.Workflow.Execution.{WorkResult}
use ai_core.Capability.Receipt.{Runtime}
use ai_core.Capability.Store.{Request, ResultEvent, Db, request_row, with_result, update_reserved}
use ai_core.Capability.Store.Rows.{
  request_row-request_id, request_row-insert_request, request_row-update_reserved, updated,
  updated_row,
}
use ai_core.Capability.Complete.{match_receipt}
use ai_core.Base.{◌⊎◌, eq_iff}
use ai_core.Capability.Change.{IsNew, IsSaved, IsChange, unchanged, new_row, saved_result}
use ai_core.Capability.Reserve.Changes.{reserve-IsChange}
use ai_core.Capability.Complete.Changes.{complete-IsChange}
use ai_core.Capability.Reconcile.Changes.{reconcile-IsChange}
use ai_core.Base.{keep, eq_refl}
use ai_core.Capability.Runs.{Runs, no_call, by_reserve, by_complete, by_reconcile, by_others}

unfoldable pub results_of : String → List ResultEvent → List ResultEvent
results_of id es = keep (λ e. e.request_id == id) es

results_of-append :
    (id : String) (es : List ResultEvent) (e : ResultEvent)
    → results_of id (es ++ e ∷ [])
      ≡ (if e.request_id == id then results_of id es ++ e ∷ [] else results_of id es)
unfolding results_of
results_of-append id [] e = refl
results_of-append id (x ∷ es) e =
    let ih = results_of-append id es e in
    elim (Bool-cases (x.request_id == id)) [
      | inr c ↦ rw (c) ih
      | inl c ↦ elim (Bool-cases (e.request_id == id)) [
        | inl d ↦ rw (c, d) (ap (λ zs. x ∷ zs) (ground arith))
        | inr d ↦ rw (c, d) (ap (λ zs. x ∷ zs) (ground arith))
      ]
    ]

one_event :
    (id : String) (e : ResultEvent) (es : List ResultEvent)
    → e.request_id ≡ id
    → results_of id es ≡ []
    → (if e.request_id == id then results_of id es ++ e ∷ [] else results_of id es) ≡ e ∷ []
one_event id e es same silent = rw (same, eq_refl id, silent) refl

pub waiting_done : (state : String) → state == "RESULT" ≡ false → state ≡ "RESULT" → ⊥
waiting_done state w d = let same = subst (λ s. s == "RESULT" ≡ false) d w in absurd (cc)

module _ (o : Runtime) where
  -- A row waits for its result and has no event.
  pub record IsWaiting (es : List ResultEvent) (row : Request) : Type 0 where
    pub state_is : row.state ≡ "RESERVED"
    pub empty : row.result ≡ none
    pub silent : results_of row.request_id es ≡ []

  -- A row has a result that matches it, and exactly one event, which carries that result.
  pub record IsDone (es : List ResultEvent) (row : Request) : Type 0 where
    pub state_is : row.state ≡ "RESULT"
    pub receipt : WorkResult
    pub result_is : row.result ≡ some receipt
    pub matched : match_receipt o row receipt ≡ ok tt
    pub event : ResultEvent
    pub once : results_of row.request_id es ≡ event ∷ []
    pub carries : event.receipt ≡ receipt

  unfoldable pub IsRecorded : List ResultEvent → String → Option Request → Type 0
  IsRecorded es id none = results_of id es ≡ []
  IsRecorded es id (some row) = IsWaiting es row ⊎ IsDone es row

  unfoldable pub IsSound : Db → Type 0
  IsSound db = (id : String) → IsRecorded db.events id (request_row id db.requests)

  new_row-IsSound :
      (db : Db) (row : Request) (rows : List Request)
      → IsNew db row rows
      → IsSound db
      → IsSound (record db { requests = rows })
  unfolding IsSound IsRecorded
  new_row-IsSound db row rows n sound id =
      let looked = request_row-insert_request row db.requests id rows n.inserted in
      subst (IsRecorded db.events id) (sym looked) (elim (Bool-cases (row.request_id == id)) [
        | inr e ↦ rw (e) (sound id)
        | inl e ↦
            let silent =
              subst (IsRecorded db.events row.request_id) n.free (sound row.request_id) in
            rw (e) (inl (record { state_is = n.reserved; empty = n.empty; silent = silent }))
      ])

  saved_row-IsDone :
      (db : Db) (row : Request) (r : WorkResult) (reason : Option String) (at : String)
      (event : ResultEvent)
      → IsSaved o db row r reason at event
      → IsRecorded db.events row.request_id (some row)
      → (row.state ≡ "RESERVED")
        × IsDone (db.events ++ event ∷ []) (with_result "RESULT" r reason at row)
  unfolding with_result IsRecorded match_receipt
  saved_row-IsDone db row r reason at event s (inr done) =
      absurd (waiting_done row.state s.waiting done.state_is)
  saved_row-IsDone db row r reason at event s (inl waiting) = (
    waiting.state_is,
    record {
      state_is = refl;
      receipt = r;
      result_is = refl;
      matched = s.matched;
      event = event;
      once =
          results_of-append row.request_id db.events event
          ∙ one_event row.request_id event db.events s.same_id waiting.silent;
      carries = s.same_receipt;
    },
  )

  own_row :
      (es : List ResultEvent) (row : Request) (r : WorkResult) (reason : Option String)
      (at : String)
      → row.state ≡ "RESERVED"
      → IsDone es (with_result "RESULT" r reason at row)
      → IsRecorded es row.request_id (updated_row row.request_id "RESULT" r reason at (some row))
  unfolding IsRecorded updated with_result
  own_row es row r reason at reserved done = rw (eq_refl row.request_id, reserved) (inr done)

  silent_of :
      (id : String) (es : List ResultEvent) (event : ResultEvent)
      → event.request_id == id ≡ false
      → results_of id (es ++ event ∷ []) ≡ results_of id es
  silent_of id es event other = results_of-append id es event ∙ rw (other) refl

  other_row :
      (es : List ResultEvent) (event : ResultEvent) (row : Request)
      → event.request_id == row.request_id ≡ false
      → IsRecorded es row.request_id (some row)
      → IsRecorded (es ++ event ∷ []) row.request_id (some row)
  unfolding IsRecorded
  other_row es event row other (inl w) = inl (record {
    state_is = w.state_is;
    empty = w.empty;
    silent = silent_of row.request_id es event other ∙ w.silent;
  })
  other_row es event row other (inr d) = inr (record {
    state_is = d.state_is;
    receipt = d.receipt;
    result_is = d.result_is;
    matched = d.matched;
    event = d.event;
    once = silent_of row.request_id es event other ∙ d.once;
    carries = d.carries;
  })

  others :
      (id saved_id : String) (r : WorkResult) (reason : Option String) (at : String)
      (es : List ResultEvent) (event : ResultEvent) (x : Option Request)
      → event.request_id ≡ saved_id
      → saved_id == id ≡ false
      → ((row : Request) → x ≡ some row → row.request_id ≡ id)
      → IsRecorded es id x
      → IsRecorded (es ++ event ∷ []) id (updated_row saved_id "RESULT" r reason at x)
  unfolding IsRecorded updated
  others id saved_id r reason at es event none same other at_id h =
      silent_of id es event (subst (λ i. i == id ≡ false) (sym same) other) ∙ h
  others id saved_id r reason at es event (some row) same other at_id h =
      let own = at_id row refl in
      let apart : row.request_id == saved_id ≡ false =
        ground (arith, eq_iff row.request_id saved_id, eq_iff saved_id id) in
      let quiet : event.request_id == row.request_id ≡ false =
        ground (arith, eq_iff event.request_id row.request_id, eq_iff saved_id id) in
      rw (apart) (
        subst (λ i. IsRecorded (es ++ event ∷ []) i (some row)) own
          (other_row es event row quiet (subst (λ i. IsRecorded es i (some row)) (sym own) h)))

  saved-IsSound :
      (db : Db) (row : Request) (r : WorkResult) (reason : Option String) (at : String)
      (event : ResultEvent)
      → IsSaved o db row r reason at event
      → IsSound db
      → IsSound (record db {
        requests =
            (update_reserved row.request_id (with_result "RESULT" r reason at) db.requests).0;
        events = db.events ++ event ∷ [];
      })
  unfolding IsSound
  saved-IsSound db row r reason at event s sound id =
      let looked = request_row-update_reserved row.request_id "RESULT" r reason at db.requests id in
      let (reserved, done) =
        saved_row-IsDone db row r reason at event s
          (subst (IsRecorded db.events row.request_id) s.found (sound row.request_id)) in
      subst (IsRecorded (db.events ++ event ∷ []) id) (sym looked)
        (elim (Bool-cases (row.request_id == id)) [
          | inl e ↦
              subst
                (λ i.
                  IsRecorded (db.events ++ event ∷ []) i
                    (updated_row row.request_id "RESULT" r reason at (request_row i db.requests)))
                (ground (arith, eq_iff row.request_id id))
                (subst
                  (λ x.
                    IsRecorded (db.events ++ event ∷ []) row.request_id
                      (updated_row row.request_id "RESULT" r reason at x))
                  (sym s.found) (own_row (db.events ++ event ∷ []) row r reason at reserved done))
          | inr e ↦
              others id row.request_id r reason at db.events event (request_row id db.requests)
                s.same_id e (request_row-request_id id db.requests) (sound id)
        ])

  change-IsSound : (db db' : Db) → IsChange o db db' → IsSound db → IsSound db'
  change-IsSound db db' unchanged sound = sound
  change-IsSound db db' (new_row row rows n) sound = new_row-IsSound db row rows n sound
  change-IsSound db db' (saved_result row r reason at event s) sound =
      saved-IsSound db row r reason at event s sound

  module _ (host : Host (Unit {0}) (Unit {0})) (workflow : Workflow) where
    -- Whatever calls are made from tables that are sound, as empty ones are, every request waits with
    -- no result and no event, or it has one result, which matches its order, work, capability, project
    -- and revision, and exactly one event, which carries that result.
    pub Runs-IsSound : (a b : Db) → Runs o host workflow a b → IsSound a → IsSound b
    unfolding IsSound
    Runs-IsSound a b no_call sound = sound
    Runs-IsSound a b (by_reserve b₀ reader projects now c at run) sound =
        change-IsSound b₀ _ (reserve-IsChange o reader projects now b₀ c at)
          (Runs-IsSound a b₀ run sound)
    Runs-IsSound a b (by_complete b₀ stamp i result reason run) sound =
        change-IsSound b₀ _ (complete-IsChange o host workflow b₀ stamp i result reason)
          (Runs-IsSound a b₀ run sound)
    Runs-IsSound a b (by_reconcile b₀ projects reader paths now stamp i run) sound =
        change-IsSound b₀ _
          (reconcile-IsChange o projects reader paths host workflow now b₀ stamp i)
          (Runs-IsSound a b₀ run sound)
    Runs-IsSound a b (by_others b₀ orders bindings run) sound = Runs-IsSound a b₀ run sound
