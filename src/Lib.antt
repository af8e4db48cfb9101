-- ===== src/Lib.antt =====
-- Two programs of a game server, as the server's side of each is written in C++. The bot brain, under
-- modules/mod-bot-brain/src, asks a service over HTTP what each bot should do next, takes the answers
-- as intents, and lets two appliers in the bot's own engine carry them out; it gives every bot a
-- personality that is drawn once from its race, class and professions; and it passes what players
-- say to a bot on to the service. The bridge, services/llm-bridge/client-cpp, runs a child process
-- that answers what players whisper to one bot, line by line over pipes. The development follows the
-- parts of that code.
--
-- Personality (PersonalityCatalog.h, PersonalityIdentity.h, PersonalityPolicy.h)
--   Personality/Catalog    the tables: kRaces, kRaceVariants, kClasses, kProfessions, kConflicts
--   Personality/Identity   RaceKey, ClassKey, EncodeTraitKeys, DecodeTraitKeys
--   Personality/Sha        detail::Sha256 and Sha256Hex on lists of bytes and 32-bit words
--   Personality/Policy     BuildProfile: stable values and pool ranks, the draws of each source
--                          (Draws), the conflict passes (Resolve), the merged profile (Profiles)
-- Wire (BotBrainWire.h, BotBrainWire.cpp)
--   Wire/Vocabulary        the kinds, states, channels and commands, and their tests
--   Wire/Text              IsPossibleStrategyName, ChatTextIsSane, TraitKeyIsSane, SpeakerNameIsSane
--   Wire/Double, Wire/Json floating point numbers as bit patterns; JSON values, and the getters
--   Wire/Types             the structs of the header
--   Wire/Encode            ValidateSnapshot, EncodePlanRequest, EncodeDialogueRequest
--   Wire/Decode            DecodePlanResponse, DecodeContractInfo, ContractMajorSupported
--   Wire/Dialogue          ValidateDialogueRequest, DecodeDialogueResponse
-- Pipeline (BotBrainPipeline.h, BotBrainPipeline.cpp)
--   Pipeline/Clock         Elapsed, on the 32-bit millisecond clock
--   Pipeline/State         BotPlanState and the other structs; g_states and the globals as a World
--   Pipeline/Outcomes      StoreOutcome, RecordOutcome
--   Pipeline/Intents       TakeTravelIntent, HasPendingAppliedIntent, TakeAppliedIntent
--   Pipeline/Travel        NoteTravelStarted, ObserveActiveTravel, PerformArrivalAction, Forget
--   Pipeline/Directives, Pipeline/Strategies  ReconcileStrategies: its diff, and the rest of it
--   Pipeline/Answer        phase D of Tick
--   Pipeline/Batch         the end of phase B of Tick, MaybeFlushPendingBatch, DispatchBatch
--   Pipeline/Handshake     AttemptHandshake, ReportHandshake, MaybeRetryHandshake, Handshake
--   Pipeline/Counters      the calls as steps in any order, and the counters g_activeTravels and
--                          g_standingBots
-- Bridge (services/llm-bridge/client-cpp/ExternalLLMBridgeService.h and .cpp)
--   Bridge/Utf8            DecodeScalar, DecodeUtf8, IsTrimEmpty, IsCanonicalSanitizedText; the
--                          encoder (Scalars, Strings) and the text by its code points (Sanitized)
--   Bridge/Uuid            IsCanonicalUuidV4, NewUuidV4
--   Bridge/Calendar        gmtime, as the Gregorian calendar, with a leap rule and month lengths of
--                          its own; nothing of the client's table is used there
--   Bridge/Stamps          IsCanonicalTimestamp, FormatUtc; the check of the fields against the
--                          calendar (Fields), what is printed (Printed), what FormatUtc writes
--                          (Clock) and the order of stamps as strings (Order)
--   Bridge/Messages        ExactFields and the other tests of a record; ValidateStatus,
--                          ValidateCompletion and ValidateMetrics (Statuses), ValidateResponse and
--                          ValidateReady (Dispositions), StrictJson (Strict)
--   Bridge/State           the members of Impl, Fail, LatchLedger, ObserveSession,
--                          InvalidateSession, RetireRoute, ValidateDeliveryEvidence
--   Bridge/Admission       TrySubmit
--   Bridge/Commands, Bridge/Responses  ChooseCommand; ApplyResponse
--   Bridge/Whispers        UpdateWorld: its turn on one delivery (deliver), and the call with no
--                          other between its turns (update_world)
--   Bridge/Worker          the parts of a round of WorkerMain; Start, StartProcess and Shutdown as far
--                          as they change the state
--   Bridge/Runs            the calls and the worker's parts as steps in any order: the invariant
--                          (Invariant to Steps), the latch (Latched), the automaton of a request
--                          (Lifecycle), and the way from the answer to the whisper (Served)
--
-- How they meet: a profile's keys go through Identity into the database and from there into a
-- snapshot's character; Encode writes the snapshots of a batch, Decode reads the reply, Answer puts
-- its intents into a bot's two slots, Intents and Strategies take them out, and Travel and Outcomes
-- tell the next snapshot what became of them. In the bridge, Admission puts a request into the table
-- of routes, the worker takes its commands from Commands, checks each line with Messages and hands
-- the record to Responses, and Whispers gives the answer to the player.
--
-- Text is a list of byte values. A machine integer is a native number with its wrap written out: the
-- clocks, counters and realm of the brain at 32 bits, the bridge's count of sessions at 64; signed
-- 64-bit times of the brain are integers. The bridge's times are natural numbers, of milliseconds
-- from 1970 or from the start of its clock, and a player's login time is one, which is only ever
-- compared. A pointer is a number, 0 the null one; a null bot is `none`. The state is passed along:
-- a function takes a World, or the bridge's Impl, and gives the next one. A call that drops the lock
-- in between, ObserveActiveTravel, takes the world that it finds when it locks again; UpdateWorld
-- and a round of the worker are several steps, between which others may come; the rest run as one
-- step. Clock readings are arguments, and so is what the random generator, the pipes and the process
-- give.
--
-- Bounds and fuel: the conflict passes run on the source's own bound of 64, and each takes away
-- one of the six pairs of the table; the padding loop of the digest runs on 64 rounds, at most 63 of
-- which it needs; the digits of a number are read off on fuel that the number itself bounds; the
-- lines of the bridge's buffer are taken on fuel of its length; the calendar counts a date off on a
-- year for every 365 days from the year 1, and on eleven months.
--
-- Parameters: the JSON parser and printer and the conversion of an integer to a double (Library);
-- what the bot's engine answers, HasStrategy and the registry of strategies (Engine); the stock
-- actions (DoAction); the bridge's JSON parser, which gives its events and a value (Parser), and the
-- test of the two players in the world (Bridge/Whispers, World). Of the engine one property assumes
-- that a strategy the brain does not own is as it was before the brain came, and of the bridge's
-- parser one assumes that it calls back for the events of the value it gives; of the others nothing
-- is assumed.
--
-- Not modelled: the first two phases of Tick, and the identity and personality workers of
-- BotBrainPipeline.cpp; BotBrainConfig, BotBrainClient, BotBrainDialogue and the glue to the
-- playerbot engines; of the bridge, the package, the process and the pipes, which are calls of
-- Windows, and its log lines; the modules mod-leech, mod-donation, mod-worldbuff and
-- mod-solo-dungeon; what the game core does with a directive or an action. The other directories hold
-- Go, scripts, data, documents, and copies of another project's sources.
pub mod Base
pub mod Personality
pub mod Wire
pub mod Pipeline
pub mod Bridge
mod Examples
