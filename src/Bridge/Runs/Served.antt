-- ===== src/Bridge/Runs/Served.antt =====
-- From the answer of the child, over the queue, to the whisper.
use mathlib.Core.List.{append-nil, append_assoc}
use twow_repo.Base.{
  ℕ, suc, ◌<◌, true, false, List, [], ◌∷◌, ◌++◌, Option, none, some, ◌≡◌, refl, sym, ap, subst, ◌∙◌,
  ◌⊎◌, arith, inl, inr, if◌then◌else◌, Bool-cases, bytes_eq, bytes_eq_iff, bytes_eq_refl,
  bytes_eq_sym, Bytes, codes, length, All,
}
use twow_repo.Wire.Json.{Json}
use twow_repo.Bridge.Messages.{bot_guid, field}
use twow_repo.Bridge.Messages.Statuses.{Completion}
use twow_repo.Bridge.Messages.Dispositions.{consume, Disposition, validate_response}
use twow_repo.Bridge.Messages.Dispositions.Consumed.{validate_response-consumed}
use twow_repo.Bridge.State.{
  Fingerprint, consuming, delivery_pending, Route, Routes, Delivery, Impl, find_session, find_route,
  validate_delivery_evidence, retire_route,
}
use twow_repo.Bridge.State.Tables.{find_route-set_phase, find_route-erase_route, rephased}
use twow_repo.Bridge.State.Evidence.{validate_completion-evidence}
use twow_repo.Bridge.Responses.{
  apply_response, apply_valid, found_applied, route_applied, consume_applied, with_phase,
}
use twow_repo.Bridge.Whispers.{
  World, Whisper, same, evidence, whisper_if, deliver, go_through, update_world,
}
use twow_repo.Bridge.Runs.Invariant.{Kept, IsSettled, phase_at, phase_found}

-- The sessions of a route are there still, and active.
pub record IsPresent (route : Route) (s : Impl) : Type 0 where
  pub bot_here : find_session route.bot s.sessions ≡ some route.bot_session
  pub bot_active : route.bot_session.active ≡ true
  pub target_here : find_session route.target s.sessions ≡ some route.target_session
  pub target_active : route.target_session.active ≡ true

same_itself : (f : Fingerprint) → f.active ≡ true → same f f ≡ true
unfolding same
same_itself f h = ground (arith, bytes_eq_refl f.name)

queued : Route → Completion → Impl → Impl
queued route c s = record (with_phase route.request_id delivery_pending s) {
  deliveries = s.deliveries ++ record { route = route; completion = c } ∷ [];
}

queued_lem :
    (now : ℕ) (route : Route) (d : Disposition) (v : Json) (s : Impl)
    → d.consumed ≡ true
    → bytes_eq d.completion.outcome (codes "ready") ≡ true
    → now < route.deadline
    → length s.deliveries < 3
    → consume_applied now route d v s ≡ queued route d.completion s
unfolding consume_applied queued
queued_lem now route d v s c o t l = ground arith

delivering : Route → Route
delivering route = record route { phase = delivery_pending }

-- The evidence, where the look-ups give what they are to give.
evidence-some :
    (now : ℕ) (d : Delivery)
    → d.route.bot ≡ bot_guid
    → validate_delivery_evidence (delivering d.route) d.completion now ≡ true
    → evidence now d
        (some (delivering d.route))
        (some d.route.bot_session)
        (some d.route.target_session)
      ≡ some (d.route.bot_session, d.route.target_session)
unfolding evidence delivering
evidence-some now d b h =
    ground (arith, bytes_eq_refl d.route.request_id, bytes_eq_refl d.route.target_name)

whispered :
    (w : World) (d : Delivery)
    → d.route.bot_session.active ≡ true
    → d.route.target_session.active ≡ true
    → w.players_match d d.route.bot_session d.route.target_session ≡ true
    → whisper_if w d (some (d.route.bot_session, d.route.target_session))
      ≡ record { to = d.route.target; text = d.completion.text } ∷ []
unfolding whisper_if
whispered w d b t m =
    ground (arith, same_itself d.route.bot_session b, same_itself d.route.target_session t)

-- The look-ups of one turn.
look : World → ℕ → Delivery → Option Route → Option Fingerprint → Option Fingerprint → List Whisper
look w now d r bot target = whisper_if w d (evidence now d r bot target)

said_of : World → ℕ → Delivery → Impl → List Whisper
said_of w now d s =
    look w now d (find_route d.route.request_id s.routes) (find_session d.route.bot s.sessions)
      (find_session d.route.target s.sessions)

deliver-said_of :
    (w : World) (now : ℕ) (d : Delivery) (s : Impl) → (deliver w now d s).1 ≡ said_of w now d s
unfolding deliver said_of look
deliver-said_of w now d s = refl

-- Two states with the same sessions, and the same routes but for one request.
record Agree (id : Bytes) (s t : Impl) : Type 0 where
  sessions : s.sessions ≡ t.sessions
  others :
      (key : Bytes) → bytes_eq id key ≡ false → find_route key s.routes ≡ find_route key t.routes

-- Deliveries of other requests.
abbrev Others : Bytes → List Delivery → Type 0
Others id = All λ d. bytes_eq id d.route.request_id ≡ false

said_of-Agree :
    (id : Bytes) (w : World) (now : ℕ) (d : Delivery) (s t : Impl)
    → Agree id s t
    → bytes_eq id d.route.request_id ≡ false
    → said_of w now d s ≡ said_of w now d t
unfolding said_of
said_of-Agree id w now d s t a n =
    ap
      (λ r.
        look w now d r (find_session d.route.bot s.sessions)
          (find_session d.route.target s.sessions))
      (a.others d.route.request_id n)
    ∙ ap
        (λ ss.
          look w now d (find_route d.route.request_id t.routes) (find_session d.route.bot ss)
            (find_session d.route.target ss))
        a.sessions

retire-Agree :
    (id key : Bytes) (s t : Impl)
    → Agree id s t
    → Agree id (retire_route key s) (retire_route key t)
unfolding retire_route
retire-Agree id key s t a = record {
  sessions = a.sessions;
  others = λ k n.
      find_route-erase_route k key s.routes
      ∙ ap (λ r. if bytes_eq key k then none else r) (a.others k n)
      ∙ sym (find_route-erase_route k key t.routes);
}

go_through-Agree :
    (id : Bytes) (w : World) (clock : ℕ → ℕ) (ds : List Delivery) (s t : Impl)
    → Agree id s t
    → Others id ds
    → (go_through w clock ds s).1 ≡ (go_through w clock ds t).1
unfolding go_through deliver said_of look
go_through-Agree id w clock [] s t a o = refl
go_through-Agree id w clock (d ∷ ds) s t a o =
    let key = d.route.request_id in
    let later : ℕ → ℕ = λ i. clock (suc i) in
    ap (λ xs. xs ++ (go_through w later ds (retire_route key s)).1)
      (said_of-Agree id w (clock 0) d s t a o.0)
    ∙ ap (λ ys. said_of w (clock 0) d t ++ ys)
        (go_through-Agree id w later ds (retire_route key s) (retire_route key t)
          (retire-Agree id key s t a) o.1)

-- The turns of other requests leave this one alone, and every turn the sessions.
go_through-other :
    (id : Bytes) (w : World) (clock : ℕ → ℕ) (ds : List Delivery) (s : Impl)
    → Others id ds
    → (find_route id (go_through w clock ds s).0.routes ≡ find_route id s.routes)
      × ((go_through w clock ds s).0.sessions ≡ s.sessions)
unfolding go_through deliver retire_route
go_through-other id w clock [] s o = (refl, refl)
go_through-other id w clock (d ∷ ds) s o =
    let key = d.route.request_id in
    let (r, e) = go_through-other id w (λ i. clock (suc i)) ds (retire_route key s) o.1 in
    let elsewhere = bytes_eq_sym key id ∙ o.0 in
    (r ∙ find_route-erase_route id key s.routes ∙ rw elsewhere refl, e)

-- The last delivery, after the others.
go_through-last :
    (w : World) (clock : ℕ → ℕ) (ds : List Delivery) (d : Delivery) (s : Impl)
    → (go_through w clock (ds ++ d ∷ []) s).1
      ≡ (go_through w clock ds s).1 ++ said_of w (clock (length ds)) d (go_through w clock ds s).0
unfolding go_through deliver said_of look
go_through-last w clock [] d s = append-nil (said_of w (clock 0) d s)
go_through-last w clock (e ∷ ds) d s =
    let turn = deliver w (clock 0) e s in
    let later : ℕ → ℕ = λ i. clock (suc i) in
    ap (λ ys. turn.1 ++ ys) (go_through-last w later ds d turn.0)
    ∙ sym (
        append_assoc turn.1 (go_through w later ds turn.0).1
          (said_of w (clock (suc (length ds))) d (go_through w later ds turn.0).0))

-- A request that is being consumed is not that of any delivery on its way.
settled-Others :
    (id : Bytes) (rs : Routes) (ds : List Delivery)
    → phase_at id rs ≡ some consuming
    → All (IsSettled rs) ds
    → Others id ds
settled-Others id rs [] p h = tt
settled-Others id rs (d ∷ ds) p h =
    (apart (Bool-cases (bytes_eq id d.route.request_id)), settled-Others id rs ds p h.1)
  where
    apart :
        (bytes_eq id d.route.request_id ≡ true) ⊎ (bytes_eq id d.route.request_id ≡ false)
        → bytes_eq id d.route.request_id ≡ false
    apart (inr e) = e
    apart (inl e) =
        let q =
          subst (λ k. phase_at k rs ≡ some consuming) ((bytes_eq_iff id d.route.request_id).0 e)
            p in
        elim h.0 [ inl f ↦ absurd (cc) | inr f ↦ absurd (cc) ]

-- Queueing the answer turns its own route and no other.
queued-Agree :
    (route : Route) (c : Completion) (s : Impl)
    → Agree route.request_id
        (record (queued route c s) { deliveries = [] })
        (record s { deliveries = [] })
unfolding queued
queued-Agree route c s = record {
  sessions = refl;
  others = λ key n.
      find_route-set_phase key route.request_id delivery_pending s.routes
      ∙ rw n (unchanged (find_route key s.routes));
}
  where
    unchanged : (o : Option Route) → rephased false delivery_pending o ≡ o
    unchanged none = refl
    unchanged (some r) = refl

queued-found :
    (route : Route) (c : Completion) (s : Impl)
    → find_route route.request_id s.routes ≡ some route
    → find_route route.request_id (queued route c s).routes ≡ some (delivering route)
unfolding queued delivering
queued-found route c s found =
    find_route-set_phase route.request_id route.request_id delivery_pending s.routes
    ∙ rw (bytes_eq_refl route.request_id) (ap (rephased true delivery_pending) found)

-- `ApplyResponse` queues the answer.
apply_response-queued :
    (now : ℕ) (v : Json) (route : Route) (s : Impl)
    → find_route route.request_id s.routes ≡ some route
    → (validate_response consume v route.request_id).valid ≡ true
    → (validate_response consume v route.request_id).ledger_full ≡ false
    → apply_response now consume route.request_id v s
      ≡ some (consume_applied now route (validate_response consume v route.request_id) v s)
unfolding apply_response apply_valid found_applied route_applied
apply_response-queued now v route s found valid room = rw (valid, found, room) refl

-- The answer is said, if its turn comes in time.
said :
    (w : World) (later : ℕ) (route : Route) (c : Completion) (s : Impl)
    → find_route route.request_id s.routes ≡ some (delivering route)
    → IsPresent route s
    → route.bot ≡ bot_guid
    → validate_delivery_evidence (delivering route) c later ≡ true
    → w.players_match
        (record { route = route; completion = c })
        route.bot_session
        route.target_session
      ≡ true
    → said_of w later (record { route = route; completion = c }) s
      ≡ record { to = route.target; text = c.text } ∷ []
unfolding said_of look
said w later route c s found here b good match =
    let answer : Delivery = record { route = route; completion = c } in
    rw (found, here.bot_here, here.target_here)
      (ap (whisper_if w answer) (evidence-some later answer b good)
        ∙ whispered w answer here.bot_active here.target_active match)

-- A ready answer to the request that is being consumed reaches the player, over the whole way.
-- Let the tables be sound, the request be to the one bot of the client, fewer than three answers
-- wait, the record of the child be one that `ValidateResponse` finds consumed, with a ready
-- completion, and the deadline be ahead both when it comes and when `UpdateWorld` gets to it
-- behind the answers that already wait, with both sessions and both players as they were at the
-- admission. Then `ApplyResponse` takes the record, and the next `UpdateWorld` whispers what it
-- would have whispered without it, and after that the text of the answer to the player that
-- asked.
pub update_world-apply_response :
    (w : World) (clock : ℕ → ℕ) (now : ℕ) (v : Json) (route : Route) (s : Impl)
    (held : List Delivery)
    → Kept s held
    → find_route route.request_id s.routes ≡ some route
    → route.phase ≡ consuming
    → route.bot ≡ bot_guid
    → (validate_response consume v route.request_id).consumed ≡ true
    → bytes_eq (validate_response consume v route.request_id).completion.outcome (codes "ready")
      ≡ true
    → length s.deliveries < 3
    → now < route.deadline
    → clock (length s.deliveries) < route.deadline
    → IsPresent route s
    → w.players_match
        (record {
          route = route;
          completion = (validate_response consume v route.request_id).completion;
        })
        route.bot_session
        route.target_session
      ≡ true
    → (t : Impl) × (apply_response now consume route.request_id v s ≡ some t)
      × ((update_world w clock t).1
          ≡ (update_world w clock s).1
            ++ record {
              to = route.target;
              text = (validate_response consume v route.request_id).completion.text;
            }
              ∷ [])
unfolding update_world delivering queued
update_world-apply_response w clock now v route s held k found phase b consumed ready few in_time
      still here match =
    let id = route.request_id in
    let d = validate_response consume v id in
    let (valid, room, accepted) = validate_response-consumed v id consumed in
    let t = queued route d.completion s in
    let answer : Delivery = record { route = route; completion = d.completion } in
    let taken = record t { deliveries = [] } in
    let others =
      settled-Others id s.routes s.deliveries (ap phase_found found ∙ ap some phase) k.settled in
    let (kept, sessions) = go_through-other id w clock s.deliveries taken others in
    let good =
      validate_completion-evidence (field v (codes "completion")) id d.completion (delivering route)
        (clock (length s.deliveries)) accepted ready refl b still in
    let u = (go_through w clock s.deliveries taken).0 in
    let there : IsPresent route u = record {
      bot_here = ap (find_session route.bot) sessions ∙ here.bot_here;
      bot_active = here.bot_active;
      target_here = ap (find_session route.target) sessions ∙ here.target_here;
      target_active = here.target_active;
    } in
    (
      t,
      apply_response-queued now v route s found valid room
          ∙ ap some (queued_lem now route d v s consumed ready in_time few),
      go_through-last w clock s.deliveries answer taken
          ∙ ap (λ xs. xs ++ said_of w (clock (length s.deliveries)) answer u)
              (go_through-Agree id w clock s.deliveries taken (record s { deliveries = [] })
                (queued-Agree route d.completion s) others)
          ∙ ap (λ ys. (go_through w clock s.deliveries (record s { deliveries = [] })).1 ++ ys)
              (said w (clock (length s.deliveries)) route d.completion u
                (kept ∙ queued-found route d.completion s found) there b good match),
    )
