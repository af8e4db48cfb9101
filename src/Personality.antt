-- ===== src/Personality.antt =====
-- modules/mod-bot-brain/src: PersonalityIdentity.h, PersonalityCatalog.h and PersonalityPolicy.h.
pub mod Catalog
pub mod Identity
pub mod Sha
pub mod Policy
