-- ===== src/Bridge/Whispers.antt =====
-- UpdateWorld: what becomes of an answer in the world's thread. The players are found again there;
-- what the game's objects say of them is a parameter.
pub mod Safe
use twow_repo.Base.{
  ℕ, suc, Bool, true, false, not, ◌&&◌, ◌||◌, List, [], ◌∷◌, ◌++◌, Option, none, some, ◌==◌,
  if◌then◌else◌, Bytes, bytes_eq,
}
use twow_repo.Bridge.State.{
  Fingerprint, Phase, delivery_pending, Route, Delivery, validate_delivery_evidence, find_session,
  find_route, Impl, retire_route,
}

-- The test of the two players behind `FindPlayer`: in the world, a bot and a real player, not
-- logging out, and with the account, the login time and the name of the fingerprints.
pub record World : Type 0 where
  pub players_match : Delivery → Fingerprint → Fingerprint → Bool

-- A whisper: what the bot says, and to whom.
pub record Whisper : Type 0 where
  pub to : ℕ
  pub text : Bytes

abbrev pub is_delivery_pending : Phase → Bool
is_delivery_pending delivery_pending = true
is_delivery_pending _ = false

-- The lambda `same`.
unfoldable pub same : Fingerprint → Fingerprint → Bool
same current admitted =
    current.active
    && current.guid == admitted.guid
    && current.account_id == admitted.account_id
    && current.login_time == admitted.login_time
    && current.generation == admitted.generation
    && bytes_eq current.name admitted.name

-- `evidenceValid`, on what the three look-ups gave: the snapshots of the two sessions.
unfoldable pub evidence :
    ℕ
    → Delivery
    → Option Route
    → Option Fingerprint
    → Option Fingerprint
    → Option (Fingerprint × Fingerprint)
evidence now d none bot target = none
evidence now d (some route) none target = none
evidence now d (some route) (some bot) none = none
evidence now d (some route) (some bot) (some target) =
    if is_delivery_pending route.phase
      && bytes_eq route.request_id d.route.request_id
      && route.bot == d.route.bot
      && route.target == d.route.target
      && bytes_eq route.target_name d.route.target_name
      && validate_delivery_evidence route d.completion now
    then some (bot, target)
    else none

unfoldable pub whisper_if : World → Delivery → Option (Fingerprint × Fingerprint) → List Whisper
whisper_if w d none = []
whisper_if w d (some (bot, target)) =
    if not (same bot d.route.bot_session) || not (same target d.route.target_session)
    then []
    else if not (w.players_match d bot target)
    then []
    else record { to = d.route.target; text = d.completion.text } ∷ []

-- One turn of the loop: on every path the route is retired.
unfoldable pub deliver : World → ℕ → Delivery → Impl → Impl × List Whisper
unfolding evidence whisper_if
deliver w now d s =
    let found =
      evidence now d (find_route d.route.request_id s.routes) (find_session d.route.bot s.sessions)
        (find_session d.route.target s.sessions) in
    (retire_route d.route.request_id s, whisper_if w d found)

-- `deliveries.swap(m_deliveries)`.
unfoldable pub take_deliveries : Impl → Impl × List Delivery
take_deliveries s = (record s { deliveries = [] }, s.deliveries)

-- The loop over them; `clock i` is what the clock shows at turn `i`.
unfoldable pub go_through : World → (ℕ → ℕ) → List Delivery → Impl → Impl × List Whisper
go_through w clock [] s = (s, [])
go_through w clock (d ∷ ds) s =
    let turn = deliver w (clock 0) d s in
    let rest = go_through w (λ i. clock (suc i)) ds turn.0 in (rest.0, turn.1 ++ rest.1)

-- `UpdateWorld`, with no other call between its turns.
unfoldable pub update_world : World → (ℕ → ℕ) → Impl → Impl × List Whisper
unfolding take_deliveries go_through
update_world w clock s = let taken = take_deliveries s in go_through w clock taken.1 taken.0
