-- ===== src/Wire/Decode/Contract.antt =====
-- The batch size of a decoded contract.
use twow_repo.Base.{Bool, true, false, if◌then◌else◌, Option, Bytes, ◌≡◌, arith, is_empty, codes}
use twow_repo.Wire.Json.{Json, Library, Result, ok, err, ◌>>=◌, parse_body, find_member, is_int32}
use twow_repo.Wire.Types.{ContractInfo}
use twow_repo.Wire.Decode.{read_max_batch, contract_info_of, with_version, decode_contract_info}

read_max_batch-fits : (v : Option Json) → is_int32 (read_max_batch v) ≡ true
unfolding read_max_batch
read_max_batch-fits v = ground arith

-- What holds of the contract of a result, if there is one.
abbrev pub FitsResult : Result ContractInfo → Type 0
FitsResult (err why) = Unit
FitsResult (ok info) = is_int32 info.max_batch ≡ true

with_version-fits :
    (info : ContractInfo) → is_int32 info.max_batch ≡ true → FitsResult (with_version info)
unfolding with_version
with_version-fits info h = go (is_empty info.version)
  where
    go :
        (b : Bool)
        → FitsResult (if b then err (codes "contract response has no version") else ok info)
    go true = tt
    go false = h

pub decode_contract_info-fits :
    (lib : Library) (body : Bytes) → FitsResult (decode_contract_info lib body)
unfolding decode_contract_info contract_info_of
decode_contract_info-fits lib body = go (parse_body lib body)
  where
    go : (r : Result Json) → FitsResult (r >>= (λ doc. with_version (contract_info_of doc)))
    go (err why) = tt
    go (ok doc) =
        with_version-fits (contract_info_of doc)
          (read_max_batch-fits (find_member doc (codes "max_batch")))
