-- ===== src/Wire.antt =====
-- modules/mod-bot-brain/src/BotBrainWire.h and BotBrainWire.cpp: the wire contract.
pub mod Vocabulary
pub mod Text
pub mod Double
pub mod Json
pub mod Types
pub mod Encode
pub mod Decode
pub mod Dialogue
