-- ===== src/Wire/Decode/Total.antt =====
-- Whole replies of `DecodePlanResponse`.
use twow_repo.Base.{
  List, [], ◌∷◌, ◌++◌, ◌≡◌, refl, ap, subst, codes, inl, inr, Option-cases, Bytes, All,
}
use twow_repo.Wire.Json.{Json, Library, find_member, Result, ok, err, ◌>>=◌, parse_body}
use twow_repo.Wire.Types.{PlanResponse}
use twow_repo.Wire.Decode.{
  read_intent, read_intents, keep, array_of, plan_response_of, decode_plan_response,
}
use twow_repo.Wire.Decode.Intents.{IsAcceptable, read_intents-IsAcceptable}

ok_inj {ℓ} : {A : Type ℓ} {x y : A} → ok x ≡ ok y → x ≡ y
ok_inj e = cc

-- Of every reply that decodes, every intent has a known kind, a bot whose realm and guid are not 0
-- and whose realm fits 32 bits, a name, and at most sixteen usable changes with no target twice,
-- at least one of them if changing strategies is its kind.
pub decode_plan_response-IsAcceptable :
    (lib : Library) (body : Bytes) (out : PlanResponse)
    → decode_plan_response lib body ≡ ok out
    → All IsAcceptable out.intents
unfolding decode_plan_response plan_response_of
decode_plan_response-IsAcceptable lib body out h = go (parse_body lib body) refl
  where
    go : (r : Result Json) → parse_body lib body ≡ r → All IsAcceptable out.intents
    go (ok doc) e =
        subst (λ (o : PlanResponse). All IsAcceptable o.intents) (ok_inj (rw (e, ◌>>=◌) at h))
          (read_intents-IsAcceptable lib (array_of (find_member doc (codes "intents"))))
    go (err why) e = absurd (failed (rw (e, ◌>>=◌) at h))
      where
        failed : err why ≡ ok out → ⊥
        failed q = cc

-- The entries of a plan are read one by one: an entry that is dropped costs only itself.
pub read_intents-append :
    (lib : Library) (xs : List Json) (v : Json) (ys : List Json)
    → read_intents lib (xs ++ v ∷ ys)
      ≡ read_intents lib xs ++ keep (read_intent lib v) (read_intents lib ys)
unfolding read_intents
read_intents-append lib [] v ys = refl
read_intents-append lib (x ∷ xs) v ys = elim (Option-cases (read_intent lib x)) [
  | inl e ↦ rw e (read_intents-append lib xs v ys)
  | inr (i, e) ↦ rw e (ap (◌∷◌ i) (read_intents-append lib xs v ys))
]
