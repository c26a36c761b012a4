-- ===== src/Capability/Runs/Recovered.antt =====
-- A request that src/engine/capability-execution-coordinator.mjs has reserved is recovered.
use ai_core.Base.{String, true, false, some, ◌≡◌, refl, subst, sym, inl, inr}
use ai_core.Base.Result.{ok}
use ai_core.Base.Table
use ai_core.Base.Table.{Table}
use ai_core.Workflow.Spec.{Workflow}
use ai_core.Workflow.Inspect.{Host}
use ai_core.Capability.Receipt.{Runtime}
use ai_core.Capability.Recovery.{Project}
use ai_core.Capability.Store.{Request, Db, request_row, with_result}
use ai_core.Capability.Reserve.{
  Call, ReceiptReader, reserve, recover, is_request_id, is_same_call, replay_of, Answer, blank_or,
}
use ai_core.Orders.Spec.{Order}
use ai_core.Capability.Change.Rows.{IsKept, HoldsRow}
use ai_core.Capability.Runs.{Runs}
use ai_core.Capability.Receipt.{is_text}
use ai_core.Capability.Runs.{Runs-HoldsRow}
use ai_core.Orders.Spec.{Order}
use ai_core.Capability.Reserve.Asked.{reserve-IsFresh}

module _ (o : Runtime) where
  -- A row that is kept answers the same call.
  kept_call :
      (row row' : Request) (c : Call)
      → IsKept o row row'
      → is_same_call o row c ≡ true
      → is_same_call o row' c ≡ true
  unfolding IsKept is_same_call with_result
  kept_call row row' c (inl same) h = subst (λ x. is_same_call o x c ≡ true) (sym same) h
  kept_call row row' c (inr d) h = subst (λ x. is_same_call o x c ≡ true) (sym d.completed) h

  recovered :
      (db : Db) (c : Call) (row : Request)
      → is_request_id o c.request_id ≡ true
      → is_text o c.order_id ≡ true
      → request_row (blank_or c.request_id) db.requests ≡ some row
      → is_same_call o row c ≡ true
      → recover o db c ≡ ok (some (replay_of row))
  unfolding recover
  recovered db c row id_ok order_ok found same = rw (id_ok, order_ok, found, same) refl

  module _ (host : Host (Unit {0}) (Unit {0})) (workflow : Workflow) where
    -- After a reservation that is new, and after whatever calls, `recover` with the same request, order
    -- and input finds the row that was reserved, as the calls have left it. Every order that the
    -- reservation read is stored under its own id.
    pub recover-reserve :
        (reader : ReceiptReader) (projects : Table Project) (now later db' db'' : Db) (c : Call)
        (at : String) (a : Answer)
        → ((k : String) (order : Order) → Table.get k now.orders ≡ some order → order.id ≡ k)
        → reserve o reader projects now later c at ≡ (db', ok a)
        → a.replay ≡ false
        → Runs o host workflow db' db''
        → (row : Request) × IsKept o a.row row × (recover o db'' c ≡ ok (some (replay_of row)))
    unfolding HoldsRow
    recover-reserve reader projects now later db' db'' c at a own h fresh run =
        let f = reserve-IsFresh o reader projects now later db' c at a own h fresh in
        let (row, found, kept) =
          Runs-HoldsRow o host workflow db' db'' f.shape.request_id a.row run f.found in
        let same =
          subst (λ x. is_same_call o x c ≡ true) (sym f.row_is)
            (f.is_asked.same_call f.recovery at) in
        (
          row,
          kept,
          recovered db'' c row f.is_asked.id_ok f.is_asked.order_ok
              (subst (λ j. request_row j db''.requests ≡ some row) f.is_asked.same_request found)
              (kept_call a.row row c kept same),
        )
