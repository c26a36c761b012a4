-- ===== src/Capability/Store/Rows.antt =====
-- What an insertion and an update of src/engine/capability-execution-coordinator.mjs make of the row
-- that is found under a request id.
use ai_core.Base.{
  String, false, ◌&&◌, Option, none, some, List, [], ◌∷◌, ◌==◌, ◌≡◌, refl, subst, sym, ◌∙◌, arith,
  inl, inr, eq_iff, Bool-cases, Option-cases, if◌then◌else◌,
}
use ai_core.Workflow.Execution.{WorkResult}
use ai_core.Capability.Store.{Request, request_row, insert_request, with_result, update_reserved}

some_eq : {A : Type 0} {a b : A} → some a ≡ some b → a ≡ b
some_eq h = cc

cons-insert_request :
    (r x : Request) (rs rest more : List Request)
    → x.request_id == r.request_id ≡ false
    → insert_request r rs ≡ some rest
    → insert_request r (x ∷ rs) ≡ some more
    → (x ∷ rest) ≡ more
unfolding insert_request
cons-insert_request r x rs rest more e n h =
    let made : insert_request r (x ∷ rs) ≡ some (x ∷ rest) = rw (e, n) refl in
    some_eq (sym made ∙ h)

-- The row is the only one of its id, and the first.
pub request_row-insert_request :
    (r : Request) (rs : List Request) (id : String) (more : List Request)
    → insert_request r rs ≡ some more
    → request_row id more ≡ (if r.request_id == id then some r else request_row id rs)
unfolding insert_request request_row
request_row-insert_request r [] id more h =
    subst (λ rows. request_row id rows ≡ (if r.request_id == id then some r else none)) (some_eq h)
      refl
request_row-insert_request r (x ∷ rs) id more h = elim (Bool-cases (x.request_id == r.request_id)) [
  | inl e ↦ absurd (ground arith)
  | inr e ↦ elim (Option-cases (insert_request r rs)) [
    | inl n ↦ absurd (ground arith)
    | inr (rest, n) ↦
        let ih = request_row-insert_request r rs id rest n in
        subst
          (λ rows.
            request_row id rows ≡ (if r.request_id == id then some r else request_row id (x ∷ rs)))
          (cons-insert_request r x rs rest more e n h)
          (ground (
            arith,
            ih,
            eq_iff x.request_id r.request_id,
            eq_iff x.request_id id,
            eq_iff r.request_id id,
          ))
  ]
]

pub request_row-request_id :
    (id : String) (rs : List Request) (r : Request) → request_row id rs ≡ some r → r.request_id ≡ id
unfolding request_row
request_row-request_id id [] r h = absurd (cc)
request_row-request_id id (x ∷ rs) r h = elim (Bool-cases (x.request_id == id)) [
  | inl e ↦ ground (arith, eq_iff x.request_id id)
  | inr e ↦ request_row-request_id id rs r (ground arith)
]

-- The row after the update of `id`.
unfoldable pub updated : String → (Request → Request) → Request → Request
updated id f r = if r.request_id == id && r.state == "RESERVED" then f r else r

module _ (id state : String) (receipt : WorkResult) (reason : Option String) (at : String) where
  abbrev pub saved : Request → Request
  saved = with_result state receipt reason at

  abbrev pub updated_row : Option Request → Option Request
  updated_row none = none
  updated_row (some r) = some (updated id saved r)

  pub request_row-update_reserved :
      (rs : List Request) (j : String)
      → request_row j (update_reserved id saved rs).0 ≡ updated_row (request_row j rs)
  unfolding request_row update_reserved updated with_result
  request_row-update_reserved [] j = refl
  request_row-update_reserved (r ∷ rs) j =
      let ih = request_row-update_reserved rs j in
      elim (Bool-cases (r.request_id == id && r.state == "RESERVED")) [
        | inl c ↦ elim (Bool-cases (r.request_id == j)) [
          | inl e ↦ rw (c, e, updated, c) refl
          | inr e ↦ rw (c, e) ih
        ]
        | inr c ↦ elim (Bool-cases (r.request_id == j)) [
          | inl e ↦ rw (c, e, updated, c) refl
          | inr e ↦ rw (c, e) ih
        ]
      ]
