-- ===== src/Chain/Verify/Tamper.antt =====
-- The head of a ledger of scripts/work-ledger.mjs stands for its whole content.
use ai_core.Base.{
  String, Bool, true, Option, List, [], ◌∷◌, map, ◌≡◌, ◌⊎◌, refl, sym, ap, subst, ◌∙◌, inl, inr, In,
  reverse_onto, reverse_onto_inj, map-reverse_onto,
}
use ai_core.Base.Field.{Field, missing, null_value, value}
use ai_core.Base.Result.{ok}
use ai_core.Json.{Json, obj, Fields, canonical, without, field_at}
use ai_core.Json.Lookup.{field_at-canonical_fields, field_at-without}
use ai_core.Workflow.Registry.{Graph}
use ai_core.Chain.Verify.{Verification, verify, is_valid, parsed, content_of, event_hash}
use ai_core.Chain.Checks.{previous_of, stored_of}
use ai_core.Chain.Verify.Links.{IsChained, verify-IsChained}

-- The previous hash, read from what the event's hash is taken of.
previous_in : Json → Field
previous_in (obj fs) = field_at "previous_hash" fs
previous_in _ = missing

In-reverse_onto :
    {A : Type 0} (a : A) (xs acc : List A) → In a (reverse_onto xs acc) → In a xs ⊎ In a acc
In-reverse_onto a [] acc i = inr i
In-reverse_onto a (x ∷ xs) acc i = elim (In-reverse_onto a xs (x ∷ acc) i) [
  | inl j ↦ inl (inr j)
  | inr j ↦ elim j [ inl e ↦ inl (inl e) | inr k ↦ inr k ]
]

from : (a : Fields) (xs : List Fields) → In a (reverse_onto xs []) → In a xs
from a xs i = elim (In-reverse_onto a xs [] i) [ inl j ↦ j | inr k ↦ absurd k ]

value_ne_null : {s : String} → value s ≡ null_value → ⊥
value_ne_null e = cc

module _ (sha256_json : Json → String) where
  previous-content_of : (e : Fields) → previous_in (content_of sha256_json e) ≡ previous_of e
  unfolding content_of previous_in previous_of canonical
  previous-content_of e =
      field_at-canonical_fields "previous_hash" (without "event_hash" e)
      ∙ field_at-without "previous_hash" "event_hash" e refl

  -- The chain read from its last event.
  IsTraced : Field → List Fields → Type 0
  IsTraced last [] = last ≡ null_value
  IsTraced last (e ∷ older) =
      (stored_of e ≡ last)
      × (stored_of e ≡ value (event_hash sha256_json e))
      × IsTraced (previous_of e) older

  IsChained-IsTraced :
      (es older : List Fields) (first last : Field)
      → IsChained sha256_json first es last
      → IsTraced first older
      → IsTraced last (reverse_onto es older)
  unfolding IsChained IsTraced
  IsChained-IsTraced [] older first last c t = subst (λ f. IsTraced f older) c t
  IsChained-IsTraced (e ∷ es) older first last (linked, hashed, c) t =
      IsChained-IsTraced es (e ∷ older) (stored_of e) last c
        (refl, hashed, subst (λ f. IsTraced f older) (sym linked) t)

  -- No two events of the two ledgers have the same hash and a different content.
  unfoldable pub NoCollision : List Fields → List Fields → Type 0
  NoCollision ds es =
      (d e : Fields)
      → In d ds
      → In e es
      → event_hash sha256_json d ≡ event_hash sha256_json e
      → content_of sha256_json d ≡ content_of sha256_json e

  IsTraced-unique :
      (ds es : List Fields) (last : Field)
      → IsTraced last ds
      → IsTraced last es
      → NoCollision ds es
      → map (content_of sha256_json) ds ≡ map (content_of sha256_json) es
  unfolding IsTraced NoCollision
  IsTraced-unique [] [] last a b free = refl
  IsTraced-unique [] (e ∷ es) last a (s, h, _) free = absurd (value_ne_null (sym h ∙ s ∙ a))
  IsTraced-unique (d ∷ ds) [] last (s, h, _) b free = absurd (value_ne_null (sym h ∙ s ∙ b))
  IsTraced-unique (d ∷ ds) (e ∷ es) last (s, h, a) (s', h', b) free =
      let hashes : value (event_hash sha256_json d) ≡ value (event_hash sha256_json e) =
        sym h ∙ s ∙ sym s' ∙ h' in
      let same = free d e (inl refl) (inl refl) (cc) in
      let before : previous_of d ≡ previous_of e =
        sym (previous-content_of d) ∙ ap previous_in same ∙ previous-content_of e in
      let rest =
        IsTraced-unique ds es (previous_of d) a (subst (λ f. IsTraced f es) (sym before) b)
          (λ x y i j. free x y (inr i) (inr j)) in
      rw (same, rest) refl

  -- Two valid ledgers with the same head have the same events in the same order, up to the order of
  -- an event's properties, unless two of their events have the same hash and a different content:
  -- an event of a ledger cannot be changed, left out or added without changing the head.
  pub verify_unique :
      (valid_event valid_event' : Fields → Bool) (g g' : Graph) (ls ms : List (Option Fields))
      (v w : Verification)
      → verify sha256_json valid_event g ls ≡ ok v
      → verify sha256_json valid_event' g' ms ≡ ok w
      → is_valid v ≡ true
      → is_valid w ≡ true
      → NoCollision (parsed ls) (parsed ms)
      → v.head ≡ w.head
      → map (content_of sha256_json) (parsed ls) ≡ map (content_of sha256_json) (parsed ms)
  unfolding NoCollision IsTraced
  verify_unique valid_event valid_event' g g' ls ms v w hv hw cv cw free heads =
      let tv =
        IsChained-IsTraced (parsed ls) [] null_value v.head
          (verify-IsChained sha256_json valid_event g ls v hv cv).0 refl in
      let tw =
        IsChained-IsTraced (parsed ms) [] null_value w.head
          (verify-IsChained sha256_json valid_event' g' ms w hw cw).0 refl in
      let f = content_of sha256_json in
      let reversed =
        IsTraced-unique (reverse_onto (parsed ls) []) (reverse_onto (parsed ms) []) v.head tv
          (subst (λ last. IsTraced last (reverse_onto (parsed ms) [])) (sym heads) tw)
          (λ d e i j. free d e (from d (parsed ls) i) (from e (parsed ms) j)) in
      reverse_onto_inj (map f (parsed ls)) (map f (parsed ms))
        (sym (map-reverse_onto f (parsed ls) []) ∙ reversed ∙ map-reverse_onto f (parsed ms) [])
