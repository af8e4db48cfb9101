-- ===== src/Bridge/State/Evidence.antt =====
-- The completions that ValidateCompletion lets through, and the second check before a whisper.
use twow_repo.Base.{
  ℕ, ◌≤◌, ◌<◌, Bool, true, false, not, ◌&&◌, [], ◌∷◌, none, some, ◌≡◌, ◌⊎◌, refl, ap, subst, inl,
  inr, arith, if◌then◌else◌, ◌==◌, none_ne_some, some_inj, Bytes, codes, bytes_eq, bytes_lt,
  is_empty,
}
use twow_repo.Wire.Json.{Json}
use twow_repo.Bridge.Uuid.{is_canonical_uuid_v4}
use twow_repo.Bridge.Stamps.{is_canonical_timestamp}
use twow_repo.Bridge.Utf8.{is_canonical_sanitized_text}
use twow_repo.Bridge.Messages.{
  bot_guid, model_name, field, text_of, number_of, integer_in_range, is_text,
}
use twow_repo.Bridge.Messages.Statuses.{
  Completion, completion_shape, ready_allows, error_allows, stored, validate_completion,
}
use twow_repo.Bridge.State.{Route, validate_delivery_evidence}

in_range :
    (v : Json) (lo hi : ℕ)
    → integer_in_range v lo hi ≡ true
    → (lo ≤ number_of v) × (number_of v ≤ hi)
unfolding integer_in_range
in_range v lo hi h = ground arith

shape_parts :
    (v : Json) (id : Bytes)
    → completion_shape v id ≡ true
    → (is_canonical_uuid_v4 id ≡ true)
      × (is_text (field v (codes "request_id")) id ≡ true)
      × (integer_in_range (field v (codes "bot_guid")) bot_guid bot_guid ≡ true)
      × (is_canonical_timestamp (text_of (field v (codes "completed_utc"))) ≡ true)
unfolding completion_shape
shape_parts v id h = ground arith

ready_parts :
    (attempt : ℕ) (model started text error raw : Json) (completed : Bytes)
    → ready_allows attempt model started text error raw completed ≡ true
    → (attempt == 1 ≡ true)
      × (is_text model model_name ≡ true)
      × (is_canonical_timestamp (text_of started) ≡ true)
      × (integer_in_range raw 0 65536 ≡ true)
      × (bytes_lt completed (text_of started) ≡ false)
      × (is_canonical_sanitized_text (text_of text) ≡ true)
unfolding ready_allows
ready_parts attempt model started text error raw completed h = ground arith

stamp_not_empty : (s : Bytes) → is_canonical_timestamp s ≡ true → is_empty s ≡ false
stamp_not_empty [] h = unfold is_canonical_timestamp in ground arith
stamp_not_empty (c ∷ cs) h = refl

-- What the function stores of a ready completion passes every test of the evidence.
stored-evidence :
    (v : Json) (id : Bytes) (route : Route) (now : ℕ)
    → completion_shape v id ≡ true
    → ready_allows
        (number_of (field v (codes "attempt_count")))
        (field v (codes "model"))
        (field v (codes "started_utc"))
        (field v (codes "text"))
        (field v (codes "error_code"))
        (field v (codes "raw_response_bytes"))
        (text_of (field v (codes "completed_utc")))
      ≡ true
    → is_text (field v (codes "outcome")) (codes "ready") ≡ true
    → route.request_id ≡ id
    → route.bot ≡ bot_guid
    → now < route.deadline
    → validate_delivery_evidence route (stored v true id) now ≡ true
unfolding validate_delivery_evidence stored
stored-evidence v id route now shape allows outcome same bot time =
    let s = shape_parts v id shape in
    let r =
      ready_parts (number_of (field v (codes "attempt_count"))) (field v (codes "model"))
        (field v (codes "started_utc")) (field v (codes "text")) (field v (codes "error_code"))
        (field v (codes "raw_response_bytes")) (text_of (field v (codes "completed_utc"))) allows in
    let b = in_range (field v (codes "bot_guid")) bot_guid bot_guid s.2 in
    let raw = in_range (field v (codes "raw_response_bytes")) 0 65536 r.3 in
    let started = stamp_not_empty (text_of (field v (codes "started_utc"))) r.2 in
    let here = ap (bytes_eq (text_of (field v (codes "request_id")))) same in
    let uuid = ap is_canonical_uuid_v4 same in ground arith

-- The branches that give a completion.
branches :
    (shape is_ready other allows errs : Bool) (x y c : Completion)
    → (if not shape
        then none
        else if is_ready
        then (if allows then some x else none)
        else if other
        then none
        else if errs
        then some y
        else none)
      ≡ some c
    → (shape ≡ true)
      × (((is_ready ≡ true) × (allows ≡ true) × (x ≡ c)) ⊎ ((is_ready ≡ false) × (y ≡ c)))
branches false is_ready other allows errs x y c h = absurd (none_ne_some h)
branches true true other true errs x y c h = (refl, inl (refl, refl, some_inj h))
branches true true other false errs x y c h = absurd (none_ne_some h)
branches true false true allows errs x y c h = absurd (none_ne_some h)
branches true false false allows true x y c h = (refl, inr (refl, some_inj h))
branches true false false allows false x y c h = absurd (none_ne_some h)

other_outcome :
    (v : Json) (id : Bytes) (c : Completion)
    → stored v false id ≡ c
    → bytes_eq (text_of (field v (codes "outcome"))) (codes "ready") ≡ false
    → bytes_eq c.outcome (codes "ready") ≡ true
    → ⊥
unfolding stored
other_outcome v id c e f g = let o = ap (λ t. bytes_eq t.outcome (codes "ready")) e in cc

-- A completion whose outcome is `ready` and that `ValidateCompletion` accepts for a request passes
-- the second check, `ValidateDeliveryEvidence`, for every route of that request and of the one bot
-- until its deadline: no answer that was accepted is lost to the later check but by its age.
pub validate_completion-evidence :
    (v : Json) (id : Bytes) (c : Completion) (route : Route) (now : ℕ)
    → validate_completion v id ≡ some c
    → bytes_eq c.outcome (codes "ready") ≡ true
    → route.request_id ≡ id
    → route.bot ≡ bot_guid
    → now < route.deadline
    → validate_delivery_evidence route c now ≡ true
unfolding validate_completion
validate_completion-evidence v id c route now h ready same bot time =
    let outcome = text_of (field v (codes "outcome")) in
    let attempt = number_of (field v (codes "attempt_count")) in
    let completed = text_of (field v (codes "completed_utc")) in
    let model = field v (codes "model") in
    let started = field v (codes "started_utc") in
    let text = field v (codes "text") in
    let error = field v (codes "error_code") in
    let raw = field v (codes "raw_response_bytes") in
    let branch =
      branches (completion_shape v id) (bytes_eq outcome (codes "ready"))
        (not (bytes_eq outcome (codes "failed")) && not (bytes_eq outcome (codes "expired")))
        (ready_allows attempt model started text error raw completed)
        (error_allows outcome attempt model started text error raw completed) (stored v true id)
        (stored v false id) c h in
    elim branch.1 [
      | inl (is_ready, allows, e) ↦
          subst (λ t. validate_delivery_evidence route t now ≡ true) e
            (stored-evidence v id route now branch.0 allows is_ready same bot time)
      | inr (not_ready, e) ↦ absurd (other_outcome v id c e not_ready ready)
    ]
