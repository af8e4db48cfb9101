-- ===== src/Bridge/Messages/Dispositions/Consumed.antt =====
-- What a disposition that is consumed says of its record.
use twow_repo.Base.{
  Bool, true, false, not, ◌&&◌, ◌||◌, [], ◌∷◌, Option, none, some, ◌≡◌, refl, arith, if◌then◌else◌,
  if-keeps, Bytes, bytes_eq, codes,
}
use twow_repo.Wire.Json.{Json}
use twow_repo.Bridge.Messages.{exact_fields, field, is_null, is_string, text_of}
use twow_repo.Bridge.Messages.Statuses.{Completion, validate_status, validate_completion}
use twow_repo.Bridge.Messages.Dispositions.{
  consume, Disposition, invalid, valid_if, is_command_error, agrees, consumed_completion,
  consumed_state, not_ready_state, already_consumed_state, is_key_error, consume_response,
  validate_response,
}

-- If it is consumed, then it is valid, and its completion is the one that was checked.
abbrev Says : Json → Bytes → Disposition → Type 0
Says completion id d =
    d.consumed ≡ true
    → (d.valid ≡ true)
      × (d.ledger_full ≡ false)
      × (validate_completion completion id ≡ some d.completion)

unconsumed : (c : Json) (id : Bytes) (d : Disposition) → d.consumed ≡ false → Says c id d
unconsumed c id d e h = absurd (cc)

consumed_completion-Says :
    (report c : Json) (id state : Bytes) (o : Option Completion)
    → validate_completion c id ≡ o
    → Says c id (consumed_completion report c state o)
unfolding consumed_completion
consumed_completion-Says report c id state none e = unconsumed c id invalid refl
consumed_completion-Says report c id state (some x) e =
    if-keeps (Says c id) (agrees report c)
      (record invalid { valid = true; consumed = true; status_state = state; completion = x })
      invalid (λ _ h. (refl, refl, e)) (λ _. unconsumed c id invalid refl)

consumed_state-Says :
    (report c : Json) (id : Bytes) (o : Option Bytes) → Says c id (consumed_state report c id o)
unfolding consumed_state
consumed_state-Says report c id none = unconsumed c id invalid refl
consumed_state-Says report c id (some state) =
    if-keeps (Says c id) (bytes_eq state (codes "consumed"))
      (consumed_completion report c state (validate_completion c id)) invalid
      (λ _. consumed_completion-Says report c id state (validate_completion c id) refl)
      (λ _. unconsumed c id invalid refl)

not_ready_state-consumed : (o : Option Bytes) → (not_ready_state o).consumed ≡ false
unfolding not_ready_state
not_ready_state-consumed none = refl
not_ready_state-consumed (some state) = ground arith

already_consumed_state-consumed : (o : Option Bytes) → (already_consumed_state o).consumed ≡ false
unfolding already_consumed_state
already_consumed_state-consumed none = refl
already_consumed_state-consumed (some state) = ground arith

-- The shape of the function: a guard in front, four codes, and a guard behind three of them.
nested :
    (P : Disposition → Type 0) (a b c d e k m n : Bool) {x y z last : Disposition}
    → P invalid
    → P x
    → P y
    → P z
    → P last
    → P (
        if a
        then invalid
        else if b
        then (if k then invalid else x)
        else if c
        then (if m then invalid else y)
        else if d
        then (if n then invalid else z)
        else if e
        then last
        else invalid)
nested P true b c d e k m n i x y z l = i
nested P false true c d e true m n i x y z l = i
nested P false true c d e false m n i x y z l = x
nested P false false true d e k true n i x y z l = i
nested P false false true d e k false n i x y z l = y
nested P false false false true e k m true i x y z l = i
nested P false false false true e k m false i x y z l = z
nested P false false false false true k m n i x y z l = l
nested P false false false false false k m n i x y z l = i

consume_response-Says :
    (v : Json) (id : Bytes) → Says (field v (codes "completion")) id (consume_response v id)
unfolding consume_response
consume_response-Says v id =
    let code = text_of (field v (codes "code")) in
    let report = field v (codes "status") in
    let c = field v (codes "completion") in
    let state = validate_status report id in
    nested (Says c id)
      (not (exact_fields v (codes "code" ∷ codes "status" ∷ codes "completion" ∷ []))
        || not (is_string (field v (codes "code"))))
      (bytes_eq code (codes "consumed")) (bytes_eq code (codes "not_ready"))
      (bytes_eq code (codes "already_consumed")) (is_key_error code) (is_null report || is_null c)
      (is_null report || not (is_null c)) (is_null report || not (is_null c))
      (unconsumed c id invalid refl) (consumed_state-Says report c id state)
      (unconsumed c id (not_ready_state state) (not_ready_state-consumed state))
      (unconsumed c id (already_consumed_state state) (already_consumed_state-consumed state))
      (unconsumed c id (valid_if (is_null report && is_null c)) refl)

pub validate_response-consumed :
    (v : Json) (id : Bytes)
    → (validate_response consume v id).consumed ≡ true
    → ((validate_response consume v id).valid ≡ true)
      × ((validate_response consume v id).ledger_full ≡ false)
      × (validate_completion (field v (codes "completion")) id
          ≡ some (validate_response consume v id).completion)
unfolding validate_response
validate_response-consumed v id =
    if-keeps (Says (field v (codes "completion")) id) (is_command_error v) invalid
      (consume_response v id) (λ _. unconsumed (field v (codes "completion")) id invalid refl)
      (λ _. consume_response-Says v id)
