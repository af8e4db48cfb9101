-- ===== src/Bridge/Whispers/Safe.antt =====
-- What is whispered, and to whom.
use twow_repo.Base.{
  ℕ, ◌<◌, ◌≤◌, Bool, true, false, not, ◌&&◌, ◌||◌, ◌==◌, List, [], ◌∷◌, Option, none, some, ◌≡◌,
  refl, sym, ap, ◌∙◌, arith, inl, inr, if◌then◌else◌, if-keeps, Bool-cases, Bytes, bytes_eq, length,
  All, none_ne_some, some_inj, ◌⊎◌,
}
use twow_repo.Bridge.Utf8.{is_canonical_sanitized_text}
use twow_repo.Bridge.Messages.Statuses.{Completion}
use twow_repo.Bridge.State.{
  Fingerprint, Phase, delivery_pending, Route, Delivery, Impl, find_session, find_route,
  validate_delivery_evidence, retire_route,
}
use twow_repo.Bridge.State.Tables.{find_route-erase_route}
use twow_repo.Bridge.Whispers.{
  World, Whisper, same, evidence, whisper_if, deliver, is_delivery_pending,
}

-- The conditions of a whisper: its request waits for the answer and is not too old, the text is
-- fit to be said, and both players still have the sessions that they had when it was admitted.
pub record IsFair (now : ℕ) (d : Delivery) (s : Impl) (x : Whisper) : Type 0 where
  pub route : Route
  pub found : find_route d.route.request_id s.routes ≡ some route
  pub waits : route.phase ≡ delivery_pending
  pub in_time : now < route.deadline
  pub fit : is_canonical_sanitized_text x.text ≡ true
  pub bot : Fingerprint
  pub bot_here : find_session d.route.bot s.sessions ≡ some bot
  pub bot_same : same bot d.route.bot_session ≡ true
  pub target : Fingerprint
  pub target_here : find_session d.route.target s.sessions ≡ some target
  pub target_same : same target d.route.target_session ≡ true
  pub said_to : x.to ≡ route.target

evidence_parts :
    (now : ℕ) (r : Route) (c : Completion)
    → validate_delivery_evidence r c now ≡ true
    → (now < r.deadline) × (is_canonical_sanitized_text c.text ≡ true)
unfolding validate_delivery_evidence
evidence_parts now r c h = ground arith

pending_phase : (p : Phase) → is_delivery_pending p ≡ true → p ≡ delivery_pending
pending_phase p h = ground arith

six :
    (a b c d e f : Bool)
    → (a && b && c && d && e && f) ≡ true
    → (a ≡ true) × (d ≡ true) × (f ≡ true)
six a b c d e f h = ground arith

same_number : (a b : ℕ) → a == b ≡ true → a ≡ b
same_number a b h = ground arith

-- What the found evidence says.
abbrev Shown : ℕ → Delivery → Impl → Fingerprint × Fingerprint → Type 0
Shown now d s (bot, target) =
    (r : Route) × (find_route d.route.request_id s.routes ≡ some r)
    × (r.phase ≡ delivery_pending)
    × (now < r.deadline)
    × (is_canonical_sanitized_text d.completion.text ≡ true)
    × (r.target ≡ d.route.target)
    × (find_session d.route.bot s.sessions ≡ some bot)
    × (find_session d.route.target s.sessions ≡ some target)

evidence-Shown :
    (now : ℕ) (d : Delivery) (s : Impl) (r : Option Route) (bot target : Option Fingerprint)
    (t : Fingerprint × Fingerprint)
    → find_route d.route.request_id s.routes ≡ r
    → find_session d.route.bot s.sessions ≡ bot
    → find_session d.route.target s.sessions ≡ target
    → evidence now d r bot target ≡ some t
    → Shown now d s t
unfolding evidence
evidence-Shown now d s none bot target t f g k h = absurd (none_ne_some h)
evidence-Shown now d s (some r) none target t f g k h = absurd (none_ne_some h)
evidence-Shown now d s (some r) (some bot) none t f g k h = absurd (none_ne_some h)
evidence-Shown now d s (some r) (some bot) (some target) t f g k h =
    let tests =
      is_delivery_pending r.phase
      && bytes_eq r.request_id d.route.request_id
      && r.bot == d.route.bot
      && r.target == d.route.target
      && bytes_eq r.target_name d.route.target_name
      && validate_delivery_evidence r d.completion now in
    shown (Bool-cases tests)
  where
    shown :
        ((is_delivery_pending r.phase
              && bytes_eq r.request_id d.route.request_id
              && r.bot == d.route.bot
              && r.target == d.route.target
              && bytes_eq r.target_name d.route.target_name
              && validate_delivery_evidence r d.completion now)
            ≡ true)
          ⊎ ((is_delivery_pending r.phase
                && bytes_eq r.request_id d.route.request_id
                && r.bot == d.route.bot
                && r.target == d.route.target
                && bytes_eq r.target_name d.route.target_name
                && validate_delivery_evidence r d.completion now)
              ≡ false)
        → Shown now d s t
    shown (inr e) = absurd (none_ne_some (rw e at h))
    shown (inl e) =
        let parts =
          six (is_delivery_pending r.phase) (bytes_eq r.request_id d.route.request_id)
            (r.bot == d.route.bot) (r.target == d.route.target)
            (bytes_eq r.target_name d.route.target_name)
            (validate_delivery_evidence r d.completion now) e in
        let ev = evidence_parts now r d.completion parts.2 in
        let pair = some_inj (rw e at h) in
        (
          r,
          f,
          pending_phase r.phase parts.0,
          ev.0,
          ev.1,
          same_number r.target d.route.target parts.1,
          g ∙ ap (λ x. some x.0) pair,
          k ∙ ap (λ x. some x.1) pair,
        )

both_same : (a b : Bool) → (not a || not b) ≡ false → (a ≡ true) × (b ≡ true)
both_same a b h = ground arith

whisper_if-IsFair :
    (w : World) (now : ℕ) (d : Delivery) (s : Impl) (o : Option (Fingerprint × Fingerprint))
    → ((t : Fingerprint × Fingerprint) → o ≡ some t → Shown now d s t)
    → All (IsFair now d s) (whisper_if w d o) × (length (whisper_if w d o) ≤ 1)
unfolding whisper_if
whisper_if-IsFair w now d s none f = (tt, omega arith)
whisper_if-IsFair w now d s (some (bot, target)) f =
    let said : List Whisper = record { to = d.route.target; text = d.completion.text } ∷ [] in
    let P : List Whisper → Type 0 = λ xs. All (IsFair now d s) xs × (length xs ≤ 1) in
    let changed = not (same bot d.route.bot_session) || not (same target d.route.target_session) in
    if-keeps P changed [] (if not (w.players_match d bot target) then [] else said)
      (λ _. (tt, omega arith))
      (λ e.
        if-keeps P (not (w.players_match d bot target)) [] said (λ _. (tt, omega arith))
          (λ _.
            let (r, found, waits, in_time, fit, to, bot_here, target_here) = f (bot, target) refl in
            let both =
              both_same (same bot d.route.bot_session) (same target d.route.target_session) e in
            (
              (
                record {
                  route = r;
                  found = found;
                  waits = waits;
                  in_time = in_time;
                  fit = fit;
                  bot = bot;
                  bot_here = bot_here;
                  bot_same = both.0;
                  target = target;
                  target_here = target_here;
                  target_same = both.1;
                  said_to = sym to;
                },
                tt,
              ),
              omega arith,
            )))

-- What `UpdateWorld` does with one answer: it whispers at most once, and only where the request
-- still waits for an answer and is not past its deadline, the text is canonical, and the bot and
-- the player have the very sessions of the admission; and whether it whispers or not, that request
-- and no other is gone from the table afterwards, so that no second answer can follow.
pub deliver-IsFair :
    (w : World) (now : ℕ) (d : Delivery) (s : Impl)
    → All (IsFair now d s) (deliver w now d s).1
      × (length (deliver w now d s).1 ≤ 1)
      × ((key : Bytes)
          → find_route key (deliver w now d s).0.routes
            ≡ (if bytes_eq d.route.request_id key then none else find_route key s.routes))
unfolding deliver retire_route
deliver-IsFair w now d s =
    let r = find_route d.route.request_id s.routes in
    let bot = find_session d.route.bot s.sessions in
    let target = find_session d.route.target s.sessions in
    let fair =
      whisper_if-IsFair w now d s (evidence now d r bot target)
        (λ t e. evidence-Shown now d s r bot target t refl refl refl e) in
    (fair.0, fair.1, λ key. find_route-erase_route key d.route.request_id s.routes)
