-- ===== src/Personality/Sha/Vectors.antt =====
-- The published vectors.
use twow_repo.Base.{◌≡◌, refl, codes}
use twow_repo.Personality.Sha.{sha256, sha256_hex}

sha256_abc :
    sha256_hex (codes "abc")
    ≡ codes "ba7816bf8f01cfea414140de5dae2223b00361a396177a9cb410ff61f20015ad"
unfolding sha256_hex sha256
sha256_abc = refl
