-- ===== src/Capability/Reserve/Changes.antt =====
-- What `reserve` of src/engine/capability-execution-coordinator.mjs does to the tables.
use ai_core.Base.{String, Option, none, some, List, ◌≡◌, refl, inl, inr, Option-cases}
use ai_core.Base.Result.{Result, ok, err, Result-cases}
use ai_core.Base.Table.{Table}
use ai_core.Capability.Receipt.{Runtime}
use ai_core.Capability.Recovery.{Project, Capability, Snapshot}
use ai_core.Capability.Store.{Request, Db, request_row, insert_request}
use ai_core.Capability.Reserve.{
  CapabilityError, Call, Shape, ReceiptReader, asked_shape, reserved_row, prepared, reserve_in,
  reserve, reserve_shape, inserted, after_snapshot,
}
use ai_core.Capability.Change.{IsChange, unchanged, new_row}

module _ (o : Runtime) where
  inserted-IsChange :
      (db : Db) (row : Request) (rows : Option (List Request))
      → request_row row.request_id db.requests ≡ none
      → insert_request row db.requests ≡ rows
      → row.state ≡ "RESERVED"
      → row.result ≡ none
      → IsChange o db (inserted o db row rows).0
  unfolding inserted
  inserted-IsChange db row none free made reserved empty = unchanged
  inserted-IsChange db row (some rows) free made reserved empty =
      new_row row rows (record { free = free; inserted = made; reserved = reserved; empty = empty })

  reserve_in-IsChange :
      (db : Db) (s : Shape) (recovery : Option Snapshot) (at : String)
      → IsChange o db (reserve_in o db s recovery at).0
  unfolding reserve_in reserved_row
  reserve_in-IsChange db s recovery at =
      elim (Option-cases (request_row s.request_id db.requests)) [
        | inr (raced, e) ↦ rw (e, reserve_in) unchanged
        | inl e ↦
            let row = reserved_row o s recovery at in
            rw (e, reserve_in)
              (inserted-IsChange db row (insert_request row db.requests) e refl refl refl)
      ]

  after_snapshot-IsChange :
      (db : Db) (s : Shape) (at : String) (r : Result CapabilityError (Option Snapshot))
      → IsChange o db (after_snapshot o db s at r).0
  unfolding after_snapshot
  after_snapshot-IsChange db s at (err e) = unchanged
  after_snapshot-IsChange db s at (ok recovery) = reserve_in-IsChange db s recovery at

  reserve_shape-IsChange :
      (reader : ReceiptReader) (projects : Table Project) (now later : Db) (s : Shape)
      (c : Capability) (at : String)
      → IsChange o later (reserve_shape o reader projects now later s c at).0
  unfolding reserve_shape
  reserve_shape-IsChange reader projects now later s c at =
      elim (Option-cases (request_row s.request_id now.requests)) [
        | inr (existing, f) ↦ rw (f, reserve_shape) unchanged
        | inl f ↦
            rw (f, reserve_shape)
              (after_snapshot-IsChange later s at (prepared o reader projects s c))
      ]

  pub reserve-IsChange :
      (reader : ReceiptReader) (projects : Table Project) (now later : Db) (c : Call) (at : String)
      → IsChange o later (reserve o reader projects now later c at).0
  unfolding reserve
  reserve-IsChange reader projects now later c at = elim (Result-cases (asked_shape o now c)) [
    | inr (x, e) ↦ rw (e, reserve) unchanged
    | inl ((s, capability), e) ↦
        rw (e, reserve) (reserve_shape-IsChange reader projects now later s capability at)
  ]
