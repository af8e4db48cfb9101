-- ===== src/Wire/Vocabulary/Kinds.antt =====
-- How the predicates on intent kinds divide the vocabulary.
use twow_repo.Base.{
  Bool, true, false, not, ◌&&◌, ◌||◌, List, [], ◌∷◌, ◌≡◌, refl, arith, inl, inr, Bool-cases, Bytes,
  bytes_eq, bytes_eq_iff, all,
}
use twow_repo.Wire.Vocabulary.{
  one_of, is_known_intent_kind, is_poi_directed_kind, has_arrival_action, is_applied_kind,
  is_standing_kind, arrival_kinds, applied_kinds, poi_directed_kinds,
}

-- What holds of each listed string holds of a string that is one of them.
pub one_of-all :
    (p : Bytes → Bool) (cs : List Bytes) (s : Bytes)
    → all p cs ≡ true
    → (not (one_of cs s) || p s) ≡ true
unfolding one_of
one_of-all p [] s h = refl
one_of-all p (c ∷ cs) s h = elim (Bool-cases (bytes_eq s c)) [
  | inl e ↦ rw ((bytes_eq_iff s c).0 e) (ground arith)
  | inr e ↦ ground (arith, one_of-all p cs s)
]

apart : (a b : Bool) → (not a || not b) ≡ true → (a && b) ≡ false
apart a b h = ground arith

-- A standing kind is applied where the bot stands; a kind with an arrival action is directed at a
-- point of interest; both sorts are known, and no kind is of both.
pub kinds-nested :
    (kind : Bytes)
    → ((not (is_standing_kind kind) || is_applied_kind kind) ≡ true)
      × ((not (has_arrival_action kind) || is_poi_directed_kind kind) ≡ true)
      × ((not (is_applied_kind kind) || is_known_intent_kind kind) ≡ true)
      × ((not (is_poi_directed_kind kind) || is_known_intent_kind kind) ≡ true)
      × ((is_applied_kind kind && is_poi_directed_kind kind) ≡ false)
unfolding is_standing_kind is_applied_kind has_arrival_action is_poi_directed_kind
    is_known_intent_kind one_of bytes_eq
kinds-nested kind = (
  ground arith,
  one_of-all is_poi_directed_kind arrival_kinds kind refl,
  one_of-all is_known_intent_kind applied_kinds kind refl,
  one_of-all is_known_intent_kind poi_directed_kinds kind refl,
  apart (is_applied_kind kind) (is_poi_directed_kind kind)
      (one_of-all (λ k. not (is_poi_directed_kind k)) applied_kinds kind refl),
)
