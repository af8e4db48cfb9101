-- ===== src/Personality/Catalog.antt =====
-- PersonalityCatalog.h: the quotas, strengths, pools, conflicts and trait keys.
pub mod Tables
use twow_repo.Base.{ℕ, Bool, true, false, List, [], ◌∷◌, Bytes, codes}

abbrev pub strength_min : ℕ
strength_min = 20

abbrev pub strength_max : ℕ
strength_max = 80

abbrev pub race_strength : ℕ
race_strength = 55

abbrev pub variant_strength : ℕ
variant_strength = 60

abbrev pub class_strength : ℕ
class_strength = 65

abbrev pub profession_strength : ℕ
profession_strength = 45

abbrev pub manual_strength : ℕ
manual_strength = 70

abbrev pub race_quota : ℕ
race_quota = 3

abbrev pub class_quota : ℕ
class_quota = 2

abbrev pub profession_quota : ℕ
profession_quota = 1

abbrev pub variant_quota : ℕ
variant_quota = 1

abbrev pub race_pool_size : ℕ
race_pool_size = 6

abbrev pub variant_pool_size : ℕ
variant_pool_size = 6

abbrev pub class_pool_size : ℕ
class_pool_size = 5

abbrev pub profession_pool_size : ℕ
profession_pool_size = 3

pub record RacePool : Type 0 where
  pub key : Bytes
  pub traits : List Bytes

pub record VariantPool : Type 0 where
  pub key : Bytes
  pub base_race : Bytes
  pub traits : List Bytes

pub record ClassPool : Type 0 where
  pub key : Bytes
  pub traits : List Bytes

-- A skill id of 0 is not verified yet.
pub record ProfessionPool : Type 0 where
  pub key : Bytes
  pub skill_id : ℕ
  pub enabled : Bool
  pub traits : List Bytes

pub record ConflictPair : Type 0 where
  pub a : Bytes
  pub b : Bytes

-- Section 5.
unfoldable pub races : List RacePool
races =
    record {
      key = codes "human";
      traits =
          codes "adaptable"
          ∷ codes "ambitious"
          ∷ codes "diplomatic"
          ∷ codes "dutiful"
          ∷ codes "curious"
          ∷ codes "sociable"
          ∷ [];
    }
    ∷ record {
      key = codes "dwarf";
      traits =
          codes "stubborn"
          ∷ codes "traditionalist"
          ∷ codes "loyal"
          ∷ codes "craft_proud"
          ∷ codes "dry_humor"
          ∷ codes "feast_loving"
          ∷ [];
    }
    ∷ record {
      key = codes "gnome";
      traits =
          codes "quirky"
          ∷ codes "inventive"
          ∷ codes "curious"
          ∷ codes "optimistic"
          ∷ codes "talkative"
          ∷ codes "absent_minded"
          ∷ [];
    }
    ∷ record {
      key = codes "night_elf";
      traits =
          codes "reserved"
          ∷ codes "nature_bound"
          ∷ codes "vigilant"
          ∷ codes "patient"
          ∷ codes "spiritual"
          ∷ codes "ancient_minded"
          ∷ [];
    }
    ∷ record {
      key = codes "high_elf";
      traits =
          codes "proud"
          ∷ codes "refined"
          ∷ codes "formal"
          ∷ codes "perfectionist"
          ∷ codes "arcane_minded"
          ∷ codes "melancholic"
          ∷ [];
    }
    ∷ record {
      key = codes "orc";
      traits =
          codes "honor_bound"
          ∷ codes "direct"
          ∷ codes "passionate"
          ∷ codes "tenacious"
          ∷ codes "competitive"
          ∷ codes "clan_loyal"
          ∷ [];
    }
    ∷ record {
      key = codes "tauren";
      traits =
          codes "calm"
          ∷ codes "protective"
          ∷ codes "spiritual"
          ∷ codes "patient"
          ∷ codes "communal"
          ∷ codes "nature_bound"
          ∷ [];
    }
    ∷ record {
      key = codes "troll";
      traits =
          codes "cunning"
          ∷ codes "playful"
          ∷ codes "superstitious"
          ∷ codes "adaptable"
          ∷ codes "relaxed"
          ∷ codes "ritual_minded"
          ∷ [];
    }
    ∷ record {
      key = codes "undead";
      traits =
          codes "mysterious"
          ∷ codes "skeptical"
          ∷ codes "resilient"
          ∷ codes "distant"
          ∷ codes "indirect"
          ∷ codes "dark_humor"
          ∷ [];
    }
    ∷ record {
      key = codes "goblin";
      traits =
          codes "business_minded"
          ∷ codes "fast_talking"
          ∷ codes "inventive"
          ∷ codes "opportunistic"
          ∷ codes "risk_taking"
          ∷ codes "practical"
          ∷ [];
    }
    ∷ []

-- Section 5.1.
unfoldable pub race_variants : List VariantPool
race_variants =
    record {
      key = codes "blood_elf";
      base_race = codes "high_elf";
      traits =
          codes "defiant"
          ∷ codes "arcane_dependent"
          ∷ codes "wounded_pride"
          ∷ codes "ambitious"
          ∷ codes "elegant"
          ∷ codes "pragmatic"
          ∷ [];
    }
    ∷ record {
      key = codes "dark_iron";
      base_race = codes "dwarf";
      traits =
          codes "suspicious"
          ∷ codes "fiery_temper"
          ∷ codes "forge_bound"
          ∷ codes "clan_loyal"
          ∷ codes "resilient"
          ∷ codes "secretive"
          ∷ [];
    }
    ∷ record {
      key = codes "wildhammer";
      base_race = codes "dwarf";
      traits =
          codes "free_spirited"
          ∷ codes "gryphon_loving"
          ∷ codes "storm_minded"
          ∷ codes "outdoorsy"
          ∷ codes "boisterous"
          ∷ codes "clan_loyal"
          ∷ [];
    }
    ∷ record {
      key = codes "forest";
      base_race = codes "troll";
      traits =
          codes "tribal"
          ∷ codes "wilderness_savvy"
          ∷ codes "fierce"
          ∷ codes "ritual_minded"
          ∷ codes "wary"
          ∷ codes "tenacious"
          ∷ [];
    }
    ∷ []

-- Section 6.
unfoldable pub classes : List ClassPool
classes =
    record {
      key = codes "warrior";
      traits =
          codes "proud"
          ∷ codes "protective"
          ∷ codes "direct"
          ∷ codes "disciplined"
          ∷ codes "battle_eager"
          ∷ [];
    }
    ∷ record {
      key = codes "rogue";
      traits =
          codes "discreet"
          ∷ codes "charming"
          ∷ codes "mistrustful"
          ∷ codes "opportunistic"
          ∷ codes "witty"
          ∷ [];
    }
    ∷ record {
      key = codes "hunter";
      traits =
          codes "patient"
          ∷ codes "observant"
          ∷ codes "animal_friendly"
          ∷ codes "independent"
          ∷ codes "tracker_minded"
          ∷ [];
    }
    ∷ record {
      key = codes "mage";
      traits =
          codes "scholarly"
          ∷ codes "curious"
          ∷ codes "analytical"
          ∷ codes "self_confident"
          ∷ codes "absent_minded"
          ∷ [];
    }
    ∷ record {
      key = codes "warlock";
      traits =
          codes "secretive"
          ∷ codes "power_minded"
          ∷ codes "pragmatic"
          ∷ codes "controlled"
          ∷ codes "dark_humor"
          ∷ [];
    }
    ∷ record {
      key = codes "druid";
      traits =
          codes "nature_bound"
          ∷ codes "calm"
          ∷ codes "empathetic"
          ∷ codes "changeable"
          ∷ codes "reserved"
          ∷ [];
    }
    ∷ record {
      key = codes "shaman";
      traits =
          codes "spirit_minded"
          ∷ codes "traditionalist"
          ∷ codes "communal"
          ∷ codes "balanced"
          ∷ codes "passionate"
          ∷ [];
    }
    ∷ record {
      key = codes "priest";
      traits =
          codes "faithful"
          ∷ codes "compassionate"
          ∷ codes "pastoral"
          ∷ codes "contemplative"
          ∷ codes "zealous"
          ∷ [];
    }
    ∷ record {
      key = codes "paladin";
      traits =
          codes "faithful"
          ∷ codes "protective"
          ∷ codes "righteous"
          ∷ codes "disciplined"
          ∷ codes "uncompromising"
          ∷ [];
    }
    ∷ []

-- Section 7.
unfoldable pub professions : List ProfessionPool
professions =
    record {
      key = codes "alchemy";
      skill_id = 171;
      enabled = true;
      traits = codes "experimental" ∷ codes "precise" ∷ codes "ingredient_minded" ∷ [];
    }
    ∷ record {
      key = codes "blacksmithing";
      skill_id = 164;
      enabled = true;
      traits = codes "craft_proud" ∷ codes "quality_minded" ∷ codes "direct" ∷ [];
    }
    ∷ record {
      key = codes "enchanting";
      skill_id = 333;
      enabled = true;
      traits = codes "meticulous" ∷ codes "mystical" ∷ codes "perfectionist" ∷ [];
    }
    ∷ record {
      key = codes "engineering";
      skill_id = 202;
      enabled = true;
      traits = codes "inventive" ∷ codes "chaotic" ∷ codes "solution_oriented" ∷ [];
    }
    ∷ record {
      key = codes "herbalism";
      skill_id = 182;
      enabled = true;
      traits = codes "observant" ∷ codes "patient" ∷ codes "plant_minded" ∷ [];
    }
    ∷ record {
      key = codes "leatherworking";
      skill_id = 165;
      enabled = true;
      traits = codes "practical" ∷ codes "material_minded" ∷ codes "resourceful" ∷ [];
    }
    ∷ record {
      key = codes "mining";
      skill_id = 186;
      enabled = true;
      traits = codes "tenacious" ∷ codes "ore_minded" ∷ codes "underground_comfortable" ∷ [];
    }
    ∷ record {
      key = codes "skinning";
      skill_id = 393;
      enabled = true;
      traits = codes "pragmatic" ∷ codes "fearless" ∷ codes "resource_conscious" ∷ [];
    }
    ∷ record {
      key = codes "tailoring";
      skill_id = 197;
      enabled = true;
      traits = codes "aesthetic" ∷ codes "meticulous" ∷ codes "status_conscious" ∷ [];
    }
    ∷ record {
      key = codes "cooking";
      skill_id = 185;
      enabled = true;
      traits = codes "hospitable" ∷ codes "taste_minded" ∷ codes "storyteller" ∷ [];
    }
    ∷ record {
      key = codes "fishing";
      skill_id = 356;
      enabled = true;
      traits = codes "patient" ∷ codes "calm" ∷ codes "tall_tale_teller" ∷ [];
    }
    ∷ record {
      key = codes "first_aid";
      skill_id = 129;
      enabled = true;
      traits = codes "helpful" ∷ codes "calm" ∷ codes "practical" ∷ [];
    }
    ∷ record {
      key = codes "survival";
      skill_id = 0;
      enabled = true;
      traits = codes "prepared" ∷ codes "adaptable" ∷ codes "wilderness_savvy" ∷ [];
    }
    ∷ record {
      key = codes "gardening";
      skill_id = 0;
      enabled = false;
      traits = codes "patient" ∷ codes "nurturing" ∷ codes "seasonal_minded" ∷ [];
    }
    ∷ record {
      key = codes "jewelcrafting";
      skill_id = 0;
      enabled = false;
      traits = codes "precise" ∷ codes "aesthetic" ∷ codes "gem_minded" ∷ [];
    }
    ∷ []

-- Section 9.2.
unfoldable pub conflicts : List ConflictPair
conflicts =
    record { a = codes "talkative"; b = codes "reserved" }
    ∷ record { a = codes "direct"; b = codes "indirect" }
    ∷ record { a = codes "calm"; b = codes "fiery_temper" }
    ∷ record { a = codes "disciplined"; b = codes "chaotic" }
    ∷ record { a = codes "sociable"; b = codes "distant" }
    ∷ record { a = codes "wary"; b = codes "risk_taking" }
    ∷ []

-- Every key section 8 defines.
unfoldable pub trait_keys : List Bytes
trait_keys =
    codes "adaptable"
    ∷ codes "ambitious"
    ∷ codes "diplomatic"
    ∷ codes "dutiful"
    ∷ codes "curious"
    ∷ codes "sociable"
    ∷ codes "stubborn"
    ∷ codes "traditionalist"
    ∷ codes "loyal"
    ∷ codes "dry_humor"
    ∷ codes "feast_loving"
    ∷ codes "quirky"
    ∷ codes "optimistic"
    ∷ codes "talkative"
    ∷ codes "absent_minded"
    ∷ codes "reserved"
    ∷ codes "patient"
    ∷ codes "proud"
    ∷ codes "refined"
    ∷ codes "formal"
    ∷ codes "melancholic"
    ∷ codes "direct"
    ∷ codes "passionate"
    ∷ codes "tenacious"
    ∷ codes "competitive"
    ∷ codes "clan_loyal"
    ∷ codes "calm"
    ∷ codes "protective"
    ∷ codes "communal"
    ∷ codes "cunning"
    ∷ codes "playful"
    ∷ codes "superstitious"
    ∷ codes "relaxed"
    ∷ codes "mysterious"
    ∷ codes "skeptical"
    ∷ codes "resilient"
    ∷ codes "distant"
    ∷ codes "indirect"
    ∷ codes "dark_humor"
    ∷ codes "business_minded"
    ∷ codes "fast_talking"
    ∷ codes "opportunistic"
    ∷ codes "risk_taking"
    ∷ codes "practical"
    ∷ codes "nature_bound"
    ∷ codes "vigilant"
    ∷ codes "spiritual"
    ∷ codes "ancient_minded"
    ∷ codes "arcane_minded"
    ∷ codes "honor_bound"
    ∷ codes "ritual_minded"
    ∷ codes "disciplined"
    ∷ codes "battle_eager"
    ∷ codes "discreet"
    ∷ codes "charming"
    ∷ codes "mistrustful"
    ∷ codes "witty"
    ∷ codes "observant"
    ∷ codes "animal_friendly"
    ∷ codes "independent"
    ∷ codes "tracker_minded"
    ∷ codes "scholarly"
    ∷ codes "analytical"
    ∷ codes "self_confident"
    ∷ codes "secretive"
    ∷ codes "power_minded"
    ∷ codes "pragmatic"
    ∷ codes "controlled"
    ∷ codes "empathetic"
    ∷ codes "changeable"
    ∷ codes "spirit_minded"
    ∷ codes "balanced"
    ∷ codes "faithful"
    ∷ codes "compassionate"
    ∷ codes "pastoral"
    ∷ codes "contemplative"
    ∷ codes "zealous"
    ∷ codes "righteous"
    ∷ codes "uncompromising"
    ∷ codes "craft_proud"
    ∷ codes "inventive"
    ∷ codes "experimental"
    ∷ codes "precise"
    ∷ codes "ingredient_minded"
    ∷ codes "quality_minded"
    ∷ codes "meticulous"
    ∷ codes "mystical"
    ∷ codes "perfectionist"
    ∷ codes "chaotic"
    ∷ codes "solution_oriented"
    ∷ codes "plant_minded"
    ∷ codes "material_minded"
    ∷ codes "resourceful"
    ∷ codes "ore_minded"
    ∷ codes "underground_comfortable"
    ∷ codes "resource_conscious"
    ∷ codes "fearless"
    ∷ codes "aesthetic"
    ∷ codes "status_conscious"
    ∷ codes "hospitable"
    ∷ codes "taste_minded"
    ∷ codes "storyteller"
    ∷ codes "tall_tale_teller"
    ∷ codes "helpful"
    ∷ codes "prepared"
    ∷ codes "wilderness_savvy"
    ∷ codes "nurturing"
    ∷ codes "seasonal_minded"
    ∷ codes "gem_minded"
    ∷ codes "defiant"
    ∷ codes "arcane_dependent"
    ∷ codes "wounded_pride"
    ∷ codes "elegant"
    ∷ codes "suspicious"
    ∷ codes "fiery_temper"
    ∷ codes "forge_bound"
    ∷ codes "free_spirited"
    ∷ codes "gryphon_loving"
    ∷ codes "storm_minded"
    ∷ codes "outdoorsy"
    ∷ codes "boisterous"
    ∷ codes "tribal"
    ∷ codes "fierce"
    ∷ codes "wary"
    ∷ []
