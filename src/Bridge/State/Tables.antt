-- ===== src/Bridge/State/Tables.antt =====
-- The routes as a table from request ids to routes.
use twow_repo.Base.{
  suc, ◌≤◌, Bool, true, false, [], ◌∷◌, Option, none, some, ◌≡◌, refl, sym, ap, subst, ◌∙◌, arith,
  inl, inr, if◌then◌else◌, Bool-cases, Bytes, bytes_eq, bytes_lt, bytes_eq_iff, bytes_eq_sym,
  bytes_lt_irrefl, bytes_lt_trans, bytes_lt_total, filter, length, All, All-filter, some_inj,
  none_ne_some,
}
use twow_repo.Base.Sort.{IsAscending}
use twow_repo.Bridge.State.{Route, Routes, Phase, find_route, emplace_route, erase_route, set_phase}

-- The order of the map.
abbrev pub route_lt : Route → Route → Bool
route_lt a b = bytes_lt a.request_id b.request_id

abbrev pub Ascending : Routes → Type 0
Ascending = IsAscending route_lt

-- What a filter leaves of a look-up.
abbrev pub keep : (Route → Bool) → Option Route → Option Route
keep p none = none
keep p (some r) = if p r then some r else none

pub filter-Ascending : (p : Route → Bool) (rs : Routes) → Ascending rs → Ascending (filter p rs)
filter-Ascending p [] h = tt
filter-Ascending p (r ∷ rs) h = elim (Bool-cases (p r)) [
  | inl e ↦ rw e (All-filter (λ y. route_lt r y ≡ true) p rs h.0, filter-Ascending p rs h.1)
  | inr e ↦ rw e (filter-Ascending p rs h.1)
]

pub lt_ne : (a b : Bytes) → bytes_lt a b ≡ true → bytes_eq b a ≡ false
lt_ne a b h = elim (Bool-cases (bytes_eq b a)) [
  | inl e ↦ let same = (bytes_eq_iff b a).0 e in let irrefl = bytes_lt_irrefl a in absurd (cc)
  | inr e ↦ e
]

eq_left : (a b c : Bytes) → bytes_eq a b ≡ true → bytes_eq a c ≡ bytes_eq b c
eq_left a b c h = ap (λ t. bytes_eq t c) ((bytes_eq_iff a b).0 h)

-- No later entry has the id of the first.
find_route-later :
    (id : Bytes) (rs : Routes)
    → All (λ y. bytes_lt id y.request_id ≡ true) rs
    → find_route id rs ≡ none
unfolding find_route
find_route-later id [] h = refl
find_route-later id (y ∷ ys) h = rw (lt_ne id y.request_id h.0) (find_route-later id ys h.1)

-- A filter keeps or drops the one route of an id.
pub find_route-filter :
    (p : Route → Bool) (id : Bytes) (rs : Routes)
    → Ascending rs
    → find_route id (filter p rs) ≡ keep p (find_route id rs)
unfolding find_route
find_route-filter p id [] h = refl
find_route-filter p id (r ∷ rs) h = elim (Bool-cases (p r)) [
  | inl e ↦ elim (Bool-cases (bytes_eq r.request_id id)) [
    | inl f ↦ rw (e, f, e) refl
    | inr f ↦ rw (e, f) (find_route-filter p id rs h.1)
  ]
  | inr e ↦ elim (Bool-cases (bytes_eq r.request_id id)) [
    | inl f ↦
        rw (e, f, e)
          (find_route-filter p id rs h.1
            ∙ ap (keep p) (
                find_route-later id rs (
                  subst (λ x. All (λ y. bytes_lt x y.request_id ≡ true) rs)
                    ((bytes_eq_iff r.request_id id).0 f) h.0)))
    | inr f ↦ rw (e, f) (find_route-filter p id rs h.1)
  ]
]

pub find_route-erase_route :
    (key id : Bytes) (rs : Routes)
    → find_route key (erase_route id rs) ≡ (if bytes_eq id key then none else find_route key rs)
unfolding find_route erase_route
find_route-erase_route key id [] = ground arith
find_route-erase_route key id (r ∷ rs) = ground (
  arith,
  find_route-erase_route key id rs,
  eq_left r.request_id id key,
  eq_left r.request_id key id,
  bytes_eq_sym key id,
)

pub find_route-emplace_route :
    (key : Bytes) (route : Route) (rs : Routes)
    → find_route route.request_id rs ≡ none
    → find_route key (emplace_route route rs)
      ≡ (if bytes_eq route.request_id key then some route else find_route key rs)
unfolding find_route emplace_route
find_route-emplace_route key route [] h = refl
find_route-emplace_route key route (r ∷ rs) h = ground (
  arith,
  find_route-emplace_route key route rs,
  bytes_eq_sym r.request_id route.request_id,
  eq_left r.request_id key route.request_id,
  bytes_eq_sym key route.request_id,
)

pub find_route-id :
    (id : Bytes) (rs : Routes) (r : Route) → find_route id rs ≡ some r → r.request_id ≡ id
unfolding find_route
find_route-id id [] r h = absurd (none_ne_some h)
find_route-id id (y ∷ ys) r h = elim (Bool-cases (bytes_eq y.request_id id)) [
  | inl e ↦ sym (ap (λ t. t.request_id) (some_inj (rw e at h))) ∙ (bytes_eq_iff y.request_id id).0 e
  | inr e ↦ find_route-id id ys r (rw e at h)
]

-- What a write to a phase leaves of the route of an id.
abbrev pub rephased : Bool → Phase → Option Route → Option Route
rephased b phase none = none
rephased b phase (some r) = some (if b then record r { phase = phase } else r)

pub find_route-set_phase :
    (key id : Bytes) (phase : Phase) (rs : Routes)
    → find_route key (set_phase id phase rs) ≡ rephased (bytes_eq id key) phase (find_route key rs)
unfolding find_route set_phase
find_route-set_phase key id phase [] = refl
find_route-set_phase key id phase (r ∷ rs) = ground (
  arith,
  find_route-set_phase key id phase rs,
  eq_left r.request_id id key,
  eq_left r.request_id key id,
  bytes_eq_sym key id,
)

pub length-set_phase :
    (id : Bytes) (phase : Phase) (rs : Routes) → length (set_phase id phase rs) ≡ length rs
unfolding set_phase
length-set_phase id phase [] = refl
length-set_phase id phase (r ∷ rs) = ap suc (length-set_phase id phase rs)

pub length-emplace_route :
    (route : Route) (rs : Routes) → length (emplace_route route rs) ≤ suc (length rs)
unfolding emplace_route
length-emplace_route route [] = omega arith
length-emplace_route route (r ∷ rs) = ground (arith, length-emplace_route route rs)

-- A bound of the ids is kept by writes and by insertions that respect it.
abbrev Above : Bytes → Routes → Type 0
Above id = All λ y. bytes_lt id y.request_id ≡ true

Above-set_phase :
    (low id : Bytes) (phase : Phase) (rs : Routes)
    → Above low rs
    → Above low (set_phase id phase rs)
unfolding set_phase
Above-set_phase low id phase [] h = tt
Above-set_phase low id phase (r ∷ rs) h = (ground arith, Above-set_phase low id phase rs h.1)

set_phase_id :
    (id : Bytes) (phase : Phase) (r : Route)
    → (if bytes_eq r.request_id id then record r { phase = phase } else r).request_id ≡ r.request_id
set_phase_id id phase r = ground arith

pub set_phase-Ascending :
    (id : Bytes) (phase : Phase) (rs : Routes) → Ascending rs → Ascending (set_phase id phase rs)
unfolding set_phase
set_phase-Ascending id phase [] h = tt
set_phase-Ascending id phase (r ∷ rs) h = (
  rw (set_phase_id id phase r) (Above-set_phase r.request_id id phase rs h.0),
  set_phase-Ascending id phase rs h.1,
)

Above-weaken : (a b : Bytes) (rs : Routes) → bytes_lt a b ≡ true → Above b rs → Above a rs
Above-weaken a b [] h k = tt
Above-weaken a b (r ∷ rs) h k = (bytes_lt_trans a b r.request_id h k.0, Above-weaken a b rs h k.1)

Above-emplace_route :
    (low : Bytes) (route : Route) (rs : Routes)
    → bytes_lt low route.request_id ≡ true
    → Above low rs
    → Above low (emplace_route route rs)
unfolding emplace_route
Above-emplace_route low route [] h k = (h, tt)
Above-emplace_route low route (r ∷ rs) h k =
    elim (Bool-cases (bytes_eq r.request_id route.request_id)) [
      | inl e ↦ rw e k
      | inr e ↦ elim (Bool-cases (bytes_lt route.request_id r.request_id)) [
        | inl f ↦ rw (e, f) (h, k)
        | inr f ↦ rw (e, f) (k.0, Above-emplace_route low route rs h k.1)
      ]
    ]

not_lt_gt : (a b : Bytes) → bytes_eq a b ≡ false → bytes_lt b a ≡ false → bytes_lt a b ≡ true
not_lt_gt a b h k = elim (Bool-cases (bytes_lt a b)) [
  | inl e ↦ e
  | inr e ↦ (let same = (bytes_eq_iff a b).1 (bytes_lt_total a b e k) in absurd (cc))
]

pub emplace_route-Ascending :
    (route : Route) (rs : Routes) → Ascending rs → Ascending (emplace_route route rs)
unfolding emplace_route
emplace_route-Ascending route [] h = (tt, tt)
emplace_route-Ascending route (r ∷ rs) h =
    elim (Bool-cases (bytes_eq r.request_id route.request_id)) [
      | inl e ↦ rw e h
      | inr e ↦ elim (Bool-cases (bytes_lt route.request_id r.request_id)) [
        | inl f ↦ rw (e, f) ((f, Above-weaken route.request_id r.request_id rs f h.0), h)
        | inr f ↦
            rw (e, f)
              (
                Above-emplace_route r.request_id route rs
                    (not_lt_gt r.request_id route.request_id e f) h.0,
                emplace_route-Ascending route rs h.1,
              )
      ]
    ]
