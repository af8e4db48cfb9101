-- ===== src/Bridge/Runs/Chosen.antt =====
-- What ChooseCommand picks: a command that fits where its request stands.
use twow_repo.Base.{
  ℕ, ◌+◌, ◌%◌, ◌<◌, Bool, true, false, not, ◌&&◌, List, [], ◌∷◌, Option, none, some, ◌≡◌, ◌≢◌, refl,
  sym, ap, ◌∙◌, arith, ◌⊎◌, inl, inr, if◌then◌else◌, if-keeps, subst, Bool-cases, none_ne_some,
  some_inj, ltb, is_empty, Bytes, bytes_eq, bytes_eq_refl, bytes_eq_sym, bytes_lt, codes, length,
  get_or, filter, All, All-get_or, and-true,
}
use twow_repo.Bridge.Messages.Dispositions.{
  CommandKind, nothing, submit, status, consume, metrics, shutdown,
}
use twow_repo.Bridge.State.{
  Phase, pending_submit, accepted, consuming, terminal, Route, Routes, Delivery, Impl, find_route,
  is_ready, is_exhausted, is_pending_submit,
}
use twow_repo.Bridge.State.Tables.{Ascending, lt_ne}
use twow_repo.Bridge.Commands.{
  Command, pick, poll, picked, mark_picked, accepted_ids, is_accepted, is_terminal, drop_expired,
  is_current, choose_among, choose_command, room_for, shutdown_command, key_command,
  status_poll_interval_ms,
}
use twow_repo.Bridge.Runs.Invariant.{Kept, phase_at, Awaits, Awaits-Busy, phase_at-set_same}
use twow_repo.Bridge.Runs.Applied.{filter-Kept, phase-Kept, status-Kept}

abbrev Above : Bytes → Routes → Type 0
Above low = All λ y. bytes_lt low y.request_id ≡ true

phase_at-first : (r : Route) (rs : Routes) → phase_at r.request_id (r ∷ rs) ≡ some r.phase
unfolding find_route
phase_at-first r rs = rw (bytes_eq_refl r.request_id) refl

phase_at-behind :
    (id : Bytes) (r : Route) (rs : Routes)
    → bytes_lt r.request_id id ≡ true
    → phase_at id (r ∷ rs) ≡ phase_at id rs
unfolding find_route
phase_at-behind id r rs h = rw (ne_sym id r.request_id (lt_ne r.request_id id h)) refl
  where
    ne_sym : (a b : Bytes) → bytes_eq a b ≡ false → bytes_eq b a ≡ false
    ne_sym a b e = bytes_eq_sym b a ∙ e

-- A command that the loop picks.
abbrev pub Fits : Command → Routes → Type 0
Fits c rs =
    ((c.kind ≡ submit) × (phase_at c.id rs ≡ some pending_submit))
    ⊎ ((c.kind ≡ consume) × (phase_at c.id rs ≡ some terminal))

pending_phase : (p : Phase) → is_pending_submit p ≡ true → p ≡ pending_submit
pending_phase p h = ground arith

terminal_phase : (p : Phase) → is_terminal p ≡ true → p ≡ terminal
terminal_phase p h = ground arith

accepted_phase : (p : Phase) → is_accepted p ≡ true → p ≡ accepted
accepted_phase p h = ground arith

pub pick-lem :
    (may room : Bool) (rs : Routes) (c : Command)
    → Ascending rs
    → pick may room rs ≡ some c
    → Fits c rs × ((low : Bytes) → Above low rs → bytes_lt low c.id ≡ true)
unfolding pick
pick-lem may room [] c a h = absurd (none_ne_some h)
pick-lem may room (r ∷ rs) c a h = elim (Bool-cases (is_pending_submit r.phase && may)) [
  | inl e ↦
      let same = some_inj (rw e at h) in
      let phase = pending_phase r.phase (and-true (is_pending_submit r.phase) may e).0 in
      (
        subst (λ t. Fits t (r ∷ rs)) same (inl (refl, phase_at-first r rs ∙ ap some phase)),
        λ low above. ap (λ t. bytes_lt low t.id) (sym same) ∙ above.0,
      )
  | inr e ↦ elim (Bool-cases (is_terminal r.phase && room)) [
    | inl f ↦
        let same = some_inj (rw (e, f) at h) in
        let phase = terminal_phase r.phase (and-true (is_terminal r.phase) room f).0 in
        (
          subst (λ t. Fits t (r ∷ rs)) same (inr (refl, phase_at-first r rs ∙ ap some phase)),
          λ low above. ap (λ t. bytes_lt low t.id) (sym same) ∙ above.0,
        )
    | inr f ↦
        let ih = pick-lem may room rs c a.1 (rw (e, f) at h) in
        let behind = phase_at-behind c.id r rs (ih.1 r.request_id a.0) in
        (
          elim ih.0 [ inl (k, p) ↦ inl (k, behind ∙ p) | inr (k, p) ↦ inr (k, behind ∙ p) ],
          λ low above. ih.1 low above.1,
        )
  ]
]

-- The ids that are polled.
abbrev Polled : Routes → Bytes → Type 0
Polled rs id = phase_at id rs ≡ some accepted

accepted-Above :
    (low : Bytes) (rs : Routes)
    → Above low rs
    → All (λ id. bytes_lt low id ≡ true) (accepted_ids rs)
unfolding accepted_ids
accepted-Above low [] h = tt
accepted-Above low (r ∷ rs) h = elim (Bool-cases (is_accepted r.phase)) [
  | inl e ↦ rw e (h.0, accepted-Above low rs h.1)
  | inr e ↦ rw e (accepted-Above low rs h.1)
]

behind-All :
    (r : Route) (rs : Routes) (ids : List Bytes)
    → All (λ id. bytes_lt r.request_id id ≡ true) ids
    → All (Polled rs) ids
    → All (Polled (r ∷ rs)) ids
behind-All r rs [] h k = tt
behind-All r rs (id ∷ ids) h k = (phase_at-behind id r rs h.0 ∙ k.0, behind-All r rs ids h.1 k.1)

accepted_ids-Polled : (rs : Routes) → Ascending rs → All (Polled rs) (accepted_ids rs)
unfolding accepted_ids
accepted_ids-Polled [] a = tt
accepted_ids-Polled (r ∷ rs) a =
    let rest =
      behind-All r rs (accepted_ids rs) (accepted-Above r.request_id rs a.0)
        (accepted_ids-Polled rs a.1) in
    elim (Bool-cases (is_accepted r.phase)) [
      | inl e ↦ rw e (phase_at-first r rs ∙ ap some (accepted_phase r.phase e), rest)
      | inr e ↦ rw e rest
    ]

-- What holds behind the choice: the tables are kept, and the command, if there is one, awaits its answer.
abbrev pub AwaitsOf : Option Command → Routes → Type 0
AwaitsOf none rs = Unit {0}
AwaitsOf (some c) rs = Awaits c.kind c.id rs

abbrev pub Good : List Delivery → Impl → Impl × Option Command → Type 0
Good held s r = Kept r.0 held × AwaitsOf r.1 r.0.routes × (r.0.status ≡ s.status)

module _ (held : List Delivery) where
  cursor_below : (n : ℕ) (ids : List Bytes) → is_empty ids ≡ false → n % length ids < length ids
  cursor_below n [] h = absurd (cc)
  cursor_below n (id ∷ ids) h = grind arith

  poll-Good : (now : ℕ) (s : Impl) → Kept s held → Good held s (poll now (accepted_ids s.routes) s)
  unfolding poll
  poll-Good now s k =
      let ids = accepted_ids s.routes in
      let cursor = s.poll_cursor % length ids in
      let id = get_or ids cursor [] in
      let asked : Impl × Option Command = (
        record s { poll_cursor = cursor + 1; next_poll = now + status_poll_interval_ms },
        some (record { kind = status; id = id; body = key_command (codes "status") id }),
      ) in
      if-keeps (Good held s) (ltb now s.next_poll) (s, none)
        (if is_empty ids then (s, none) else asked) (λ _. (k, tt, refl))
        (λ _.
          if-keeps (Good held s) (is_empty ids) (s, none) asked (λ _. (k, tt, refl))
            (λ some_id. (
              status-Kept held s asked.0 refl refl k,
              All-get_or (Polled s.routes) ids cursor [] (accepted_ids-Polled s.routes k.ascending)
                  (cursor_below s.poll_cursor ids some_id),
              refl,
            )))

  -- A request that is marked, or that is to be submitted.
  abbrev Marked : CommandKind → Bytes → Impl → Type 0
  Marked kind id s =
      let routes = mark_picked kind id s.routes in
      Kept (record s { routes = routes }) held × Awaits kind id routes

  abbrev pub FitsAs : CommandKind → Bytes → Routes → Type 0
  FitsAs kind id rs =
      ((kind ≡ submit) × (phase_at id rs ≡ some pending_submit))
      ⊎ ((kind ≡ consume) × (phase_at id rs ≡ some terminal))

  other_kind :
      {A : Type 0} (kind : CommandKind) (id : Bytes) (rs : Routes)
      → kind ≢ submit
      → kind ≢ consume
      → FitsAs kind id rs
      → A
  other_kind kind id rs m n (inl (e, p)) = absurd (m e)
  other_kind kind id rs m n (inr (e, p)) = absurd (n e)

  mark_picked-Marked :
      (kind : CommandKind) (id : Bytes) (s : Impl)
      → FitsAs kind id s.routes
      → Kept s held
      → Marked kind id s
  unfolding mark_picked
  mark_picked-Marked submit id s (inl (e, p)) k = (k, p)
  mark_picked-Marked submit id s (inr (e, p)) k = absurd (cc)
  mark_picked-Marked consume id s (inl (e, p)) k = absurd (cc)
  mark_picked-Marked consume id s (inr (e, p)) k = (
    phase-Kept held id consuming s (Awaits-Busy consume id s.routes terminal p (λ e. cc)) k,
    phase_at-set_same id consuming terminal s.routes p,
  )
  mark_picked-Marked nothing id s f k = other_kind nothing id s.routes (λ e. cc) (λ e. cc) f
  mark_picked-Marked status id s f k = other_kind status id s.routes (λ e. cc) (λ e. cc) f
  mark_picked-Marked metrics id s f k = other_kind metrics id s.routes (λ e. cc) (λ e. cc) f
  mark_picked-Marked shutdown id s f k = other_kind shutdown id s.routes (λ e. cc) (λ e. cc) f

  picked-Good :
      (now : ℕ) (may room : Bool) (s : Impl) (o : Option Command)
      → pick may room s.routes ≡ o
      → Kept s held
      → Good held s (picked now o s)
  unfolding picked
  picked-Good now may room s none e k = poll-Good now s k
  picked-Good now may room s (some c) e k =
      let m = mark_picked-Marked c.kind c.id s (pick-lem may room s.routes c k.ascending e).0 k in
      (m.0, m.1, refl)

  choose_among-Good : (now : ℕ) (s : Impl) → Kept s held → Good held s (choose_among now s)
  unfolding choose_among
  choose_among-Good now s k =
      let asked : Impl × Option Command = (
        record s { shutdown_sent = true },
        some (record { kind = shutdown; id = []; body = shutdown_command }),
      ) in
      let may = is_ready s.status in
      let room = room_for s in
      let chosen = picked now (pick may room s.routes) s in
      let shut = not may && not (is_exhausted s.status) in
      if-keeps (Good held s) (s.shutdown_requested && not s.shutdown_sent) asked
        (if shut then (s, none) else chosen)
        (λ _. (status-Kept held s asked.0 refl refl k, tt, refl))
        (λ _.
          if-keeps (Good held s) shut (s, none) chosen (λ _. (k, tt, refl))
            (λ _. picked-Good now may room s (pick may room s.routes) refl k))

  pub choose_command-Good : (now : ℕ) (s : Impl) → Kept s held → Good held s (choose_command now s)
  unfolding choose_command drop_expired
  choose_command-Good now s k =
      choose_among-Good now (record s { routes = filter (is_current now) s.routes })
        (filter-Kept held (is_current now) s k)
