-- ===== src/Capability/Reader.antt =====
-- `createTerminalReceiptReader` of src/engine/execution-receipt.mjs as the reader that
-- src/engine/capability-execution-coordinator.mjs takes by default. The states of a configuration are
-- lists of texts.
use ai_core.Base.{
  ℕ, String, Bool, true, false, Option, none, some, List, [], ◌∷◌, ◌≡◌, refl, ap, subst, sym, ◌∙◌,
  ◌==◌, keep,
}
use ai_core.Base.Field.{field_text}
use ai_core.Base.Result.{Result, ok, err}
use ai_core.Base.Table.{Table}
use ai_core.Json.{Json, num, str, arr, Items, nil, cons, Fields, lookup, field_at}
use ai_core.Workflow.Spec.{Workflow}
use ai_core.Workflow.Inspect.{Host}
use ai_core.Workflow.Decide.{Stamp}
use ai_core.Workflow.Execution.{WorkResult}
use ai_core.Capability.Receipt.{Runtime}
use ai_core.Capability.Recovery.{Project, Snapshot, parse_snapshot, snapshot}
use ai_core.Capability.Store.{Request, Db, request_row}
use ai_core.Capability.Reserve.{Observation, ReceiptReader}
use ai_core.Capability.Complete.{complete}
use ai_core.Capability.Reconcile.{Paths, result, root_of, reconcile, terminal_result, observed_ref}
use ai_core.Capability.Reconcile.Verified.{reconcile_row}
use ai_core.Capability.Terminal.{
  FileSystem, Config, ReceiptError, Observed, is_changed, latest_first, directory_of, take_snapshot,
  reconcile_receipts,
}
use ai_core.Capability.Terminal.Unique.{IsOnly, reconcile_receipts-IsOnly}

texts : Items → List String
texts nil = []
texts (cons v xs) = let rest = texts xs in elim v [ str s ↦ s ∷ rest | _ ↦ rest ]

texts_at : String → Fields → Option (List String)
unfolding texts lookup
texts_at k fs = elim (lookup k fs) [
  | none ↦ none
  | some v ↦ elim v [ arr xs ↦ some (texts xs) | _ ↦ none ]
]

unfoldable pub config_of : Fields → Config
unfolding texts_at
config_of fs =
    let at : String → Option String = λ k. field_text (field_at k fs) in
    record {
      kind = at "kind";
      directory = at "directory";
      prefix = at "prefix";
      suffix = at "suffix";
      schema_field = at "schema_field";
      schema_value = at "schema_value";
      state_field = at "state_field";
      identity_field = at "identity_field";
      success_states = texts_at "success_states" fs;
      hold_states = texts_at "hold_states" fs;
      failure_states = texts_at "failure_states" fs;
    }

-- `[...snap.entries()]`
entries : Table ℕ → Items
entries [] = nil
entries ((name, time) ∷ rest) = cons (arr (cons (str name) (cons (num time) nil))) (entries rest)

entry_of : Json → Table ℕ → Table ℕ
entry_of (arr (cons (str name) (cons (num time) nil))) rest = (name, time) ∷ rest
entry_of _ rest = rest

-- `new Map(raw.before)`
unfoldable pub before_of : Items → Table ℕ
unfolding entry_of
before_of nil = []
before_of (cons v xs) = entry_of v (before_of xs)

-- `=== true`
is_verified : Option Bool → Bool
is_verified none = false
is_verified (some b) = b

unfoldable pub observation_of : Observed → Observation
unfolding is_verified
observation_of obs = record {
  status = some obs.status;
  reason = obs.reason;
  state = field_text obs.state;
  path = obs.path;
  identity_verified = is_verified obs.identity_verified;
}

observed_by : Result ReceiptError Observed → Option Observation
unfolding observation_of
observed_by (ok obs) = some (observation_of obs)
observed_by (err e) = none

entries_by : Result ReceiptError (Table ℕ) → Option Items
unfolding entries
entries_by (ok m) = some (entries m)
entries_by (err e) = none

-- `createTerminalReceiptReader`
unfoldable pub terminal_reader : FileSystem → ReceiptReader
unfolding config_of before_of observed_by entries_by take_snapshot reconcile_receipts
terminal_reader fs = record {
  snapshot = λ root receipt. entries_by (take_snapshot fs root (config_of receipt));
  reconcile = λ root receipt before identity.
      observed_by
        (reconcile_receipts fs root (config_of receipt) (before_of before) (some identity));
}

some_eq : {A : Type 0} {a b : A} → some a ≡ some b → a ≡ b
some_eq h = cc

none_refuted : {A : Type 0} {a : A} → ◌≡◌ {A = Option A} none (some a) → ⊥
none_refuted h = absurd (cc)

-- Exactly one file answers for the request, among the files that are found now, and the request is
-- completed with what that file says.
pub record IsAnswered (o : Runtime) (projects : Table Project) (fs : FileSystem) (paths : Paths)
    (host : Host (Unit {0}) (Unit {0})) (workflow : Workflow) (later db' : Db) (stamp : Stamp)
    (row : Request) (saved_as : Option WorkResult) : Type 0 where
  pub stored : Snapshot
  pub parsed : parse_snapshot o row.before_receipts ≡ snapshot stored
  pub after : Table ℕ
  pub taken : take_snapshot fs (root_of o projects stored) (config_of stored.receipt) ≡ ok after
  pub obs : Observed
  pub read :
      reconcile_receipts fs
        (root_of o projects stored)
        (config_of stored.receipt)
        (before_of stored.before)
        (some row.request_id)
      ≡ ok obs
  pub only :
      IsOnly fs
        (config_of stored.receipt)
        (directory_of fs (config_of stored.receipt) (root_of o projects stored))
        row.request_id
        (latest_first (keep (is_changed (before_of stored.before)) after))
        obs
  pub completed :
      complete o host workflow later stamp row.request_id
        (some (
          terminal_result row stored
            (observation_of obs)
            (observed_ref o projects
              (terminal_reader fs)
              paths
              host
              workflow
              stored
              (observation_of obs))
            stamp.now))
        (some "RECONCILED_FROM_TERMINAL_RECEIPT")
      ≡ (db', ok saved_as)

is_verified_some : (x : Option Bool) → is_verified x ≡ true → x ≡ some true
unfolding is_verified
is_verified_some none h = absurd (cc)
is_verified_some (some b) h = ap (λ y. some y) h

observed_from :
    (r : Result ReceiptError Observed) (observation : Observation)
    → observed_by r ≡ some observation
    → (obs : Observed) × (r ≡ ok obs) × (observation_of obs ≡ observation)
unfolding observed_by
observed_from (ok obs) observation h = (obs, refl, some_eq h)
observed_from (err e) observation h = absurd (none_refuted h)

-- With the reader of terminal receipts, a reconciliation that settles a waiting request found, among
-- the files that are new or have another time than in the stored snapshot, exactly one that reads as a
-- receipt of the configured schema with the id of the request, and completes the request with the
-- result that this file's path and state make; what it returns is what the completion saves.
pub reconcile-IsAnswered :
    (o : Runtime) (projects : Table Project) (fs : FileSystem) (paths : Paths)
    (host : Host (Unit {0}) (Unit {0})) (workflow : Workflow) (now later db' : Db) (stamp : Stamp)
    (id : String) (row : Request) (saved_as : Option WorkResult)
    → request_row id now.requests ≡ some row
    → row.state == "RESULT" ≡ false
    → reconcile o projects (terminal_reader fs) paths host workflow now later stamp id
      ≡ (db', ok (result saved_as))
    → IsAnswered o projects fs paths host workflow later db' stamp row saved_as
unfolding terminal_reader observation_of
reconcile-IsAnswered o projects fs paths host workflow now later db' stamp id row saved_as found
      waiting h =
    let s =
      reconcile_row o projects (terminal_reader fs) paths host workflow now later db' stamp id row
        saved_as found waiting h in
    let config = config_of s.stored.receipt in
    let root = root_of o projects s.stored in
    let before = before_of s.stored.before in
    let (obs, read, seen) =
      observed_from (reconcile_receipts fs root config before (some row.request_id)) s.observation
        s.is_verified.read in
    let own : is_verified obs.identity_verified ≡ true =
      ap (λ (x : Observation). x.identity_verified) seen ∙ s.is_verified.verified in
    let (after, taken, only) =
      reconcile_receipts-IsOnly fs root row.request_id config before obs read
        (is_verified_some obs.identity_verified own) in
    record {
      stored = s.stored;
      parsed = s.is_verified.stored;
      after = after;
      taken = taken;
      obs = obs;
      read = read;
      only = only;
      completed =
          subst
            (λ x.
              complete o host workflow later stamp row.request_id
                (some (
                  terminal_result row s.stored x
                    (observed_ref o projects (terminal_reader fs) paths host workflow s.stored x)
                    stamp.now))
                (some "RECONCILED_FROM_TERMINAL_RECEIPT")
              ≡ (db', ok saved_as))
            (sym seen) s.completed;
    }
