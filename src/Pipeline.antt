-- ===== src/Pipeline.antt =====
-- `modules/mod-bot-brain/src/BotBrainPipeline.cpp`: what the module keeps for each bot, and the
-- calls that change it.
pub mod Clock
pub mod State
pub mod Outcomes
pub mod Intents
pub mod Travel
pub mod Directives
pub mod Strategies
pub mod Counters
pub mod Answer
pub mod Batch
pub mod Handshake
