-- ===== src/Examples/Brains.antt =====
-- Personalities, and what is stored of them, for a dwarf priest who mines.
use twow_repo.Base.{true, List, [], ◌∷◌, ◌≡◌, Bytes, codes, filter, All, arith}
use twow_repo.Base.Int.{pos}
use twow_repo.Base.Sort.{IsAscending}
use twow_repo.Personality.Catalog.{conflicts}
use twow_repo.Personality.Identity.{decode_trait_keys, encode_trait_keys, is_plausible_trait_key}
use twow_repo.Personality.Identity.Stored.{NoComma, decode-encode_trait_keys}
use twow_repo.Personality.Policy.{Request}
use twow_repo.Personality.Policy.Draws.{initial_draws}
use twow_repo.Personality.Policy.Draws.Sources.{initial_draws-IsSound}
use twow_repo.Personality.Policy.Resolve.{resolve}
use twow_repo.Personality.Policy.Resolve.Settled.{IsSettled, resolve-IsSettled}
use twow_repo.Personality.Policy.Profiles.{build_profile, trait_lt}
use twow_repo.Personality.Policy.Profiles.Merged.{find_trait, holders, expected}
use twow_repo.Personality.Policy.Profiles.Ordered.{IsWellFormed}
use twow_repo.Personality.Policy.Profiles.Built.{
  final_draws, find_trait-build_profile, build_profile-IsAscending, KeepsPeace,
  build_profile-KeepsPeace,
}

abbrev dwarf_priest : Request
dwarf_priest = record {
  profile_version = 1;
  profile_seed = codes "0d9c6c7e-7a52-4c55-9a5c-3a4c9d0a1f2b";
  race = codes "dwarf";
  cls = codes "priest";
  race_variant = [];
  profession_skill_ids = 186 ∷ [];
  profession_keys = [];
  manual = record { key = codes "stubborn"; strength = pos 75; locked = true } ∷ [];
}

build_profile-KeepsPeace_example : All (KeepsPeace dwarf_priest) conflicts
build_profile-KeepsPeace_example = build_profile-KeepsPeace dwarf_priest

find_trait-build_profile_example :
    find_trait (codes "stubborn") (build_profile dwarf_priest).traits
    ≡ expected (codes "stubborn") (holders (codes "stubborn") (final_draws dwarf_priest))
find_trait-build_profile_example = find_trait-build_profile dwarf_priest (codes "stubborn")

build_profile-IsAscending_example :
    IsAscending trait_lt (build_profile dwarf_priest).traits
    × All IsWellFormed (build_profile dwarf_priest).traits
build_profile-IsAscending_example = build_profile-IsAscending dwarf_priest

resolve-IsSettled_example :
    All (IsSettled dwarf_priest (resolve dwarf_priest (initial_draws dwarf_priest))) conflicts
resolve-IsSettled_example =
    resolve-IsSettled dwarf_priest (initial_draws dwarf_priest) (initial_draws-IsSound dwarf_priest)

-- A key that is stored, one that is not a key, and an empty one.
abbrev some_keys : List Bytes
some_keys = codes "ab" ∷ codes "B" ∷ [] ∷ []

some_keys-NoComma : All NoComma some_keys
some_keys-NoComma =
    (((λ h. ground arith), ((λ h. ground arith), tt)), (((λ h. ground arith), tt), (tt, tt)))

decode-encode_trait_keys_example :
    decode_trait_keys (encode_trait_keys some_keys) ≡ filter is_plausible_trait_key some_keys
decode-encode_trait_keys_example = decode-encode_trait_keys some_keys some_keys-NoComma
