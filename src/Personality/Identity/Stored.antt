-- ===== src/Personality/Identity/Stored.antt =====
-- The stored form of a profile reads back: `EncodeTraitKeys` and `DecodeTraitKeys` together.
use mathlib.Core.List.{append-nil, append_assoc}
use twow_repo.Base.{
  Bool, true, false, List, [], ◌∷◌, ◌++◌, ◌≡◌, refl, sym, ◌∙◌, ap, arith, inl, inr, ◌≢◌, ◌==◌,
  if◌then◌else◌, Bool-cases, Bytes, is_empty, all, All, All-append, filter,
}
use twow_repo.Personality.Identity.{
  encode_onto, encode_trait_keys, is_trait_byte, is_plausible_trait_key, flush, decode_onto,
  decode_trait_keys,
}

abbrev pub IsPlausible : Bytes → Type 0
IsPlausible key = is_plausible_trait_key key ≡ true

-- No byte of the key is the separator.
abbrev pub NoComma : Bytes → Type 0
NoComma key = All (λ c. c ≢ b',') key

nil_not_plausible : is_plausible_trait_key [] ≡ false
unfolding is_plausible_trait_key
nil_not_plausible = refl

-- What `flush` adds for one token.
abbrev kept : Bytes → List Bytes
kept k = if is_plausible_trait_key k then k ∷ [] else []

flush-kept : (keys : List Bytes) (k : Bytes) → flush keys k ≡ keys ++ kept k
unfolding flush
flush-kept keys k = elim (Bool-cases (is_plausible_trait_key k)) [
  | inl e ↦ rw e
  | inr e ↦ rw e (sym (append-nil keys))
]

All-kept : (k : Bytes) → All IsPlausible (kept k)
All-kept k = elim (Bool-cases (is_plausible_trait_key k)) [ inl e ↦ rw e (e, tt) | inr e ↦ rw e tt ]

flush-IsPlausible :
    (keys : List Bytes) (k : Bytes) → All IsPlausible keys → All IsPlausible (flush keys k)
flush-IsPlausible keys k h = rw flush-kept (All-append IsPlausible keys (kept k) h (All-kept k))

decode_onto-IsPlausible :
    (keys : List Bytes) (current stored : Bytes)
    → All IsPlausible keys
    → All IsPlausible (decode_onto keys current stored)
unfolding decode_onto
decode_onto-IsPlausible keys current [] h = flush-IsPlausible keys current h
decode_onto-IsPlausible keys current (c ∷ stored) h = elim (Bool-cases (c == b',')) [
  | inl e ↦
      rw e
        (decode_onto-IsPlausible (flush keys current) [] stored (flush-IsPlausible keys current h))
  | inr e ↦ rw e (decode_onto-IsPlausible keys (current ++ c ∷ []) stored h)
]

-- `EncodeTraitKeys` with no accumulator: each key in front of what follows it.
joined : Bool → List Bytes → Bytes
joined first [] = []
joined first (k ∷ keys) =
    if is_empty k
    then joined first keys
    else if first
    then k ++ joined false keys
    else b',' ∷ (k ++ joined false keys)

encode_onto-joined :
    (out : Bytes) (keys : List Bytes) → encode_onto out keys ≡ out ++ joined (is_empty out) keys
unfolding encode_onto joined
encode_onto-joined out [] = sym (append-nil out)
encode_onto-joined out ([] ∷ keys) = encode_onto-joined out keys
encode_onto-joined [] ((c ∷ k) ∷ keys) = encode_onto-joined (c ∷ k) keys
encode_onto-joined (o ∷ out) ((c ∷ k) ∷ keys) =
    encode_onto-joined (((o ∷ out) ++ b',' ∷ []) ++ (c ∷ k)) keys ∙ simp append_assoc

-- A token with no separator is read whole.
decode_onto-token :
    (keys : List Bytes) (current k rest : Bytes)
    → NoComma k
    → decode_onto keys current (k ++ rest) ≡ decode_onto keys (current ++ k) rest
unfolding decode_onto
decode_onto-token keys current [] rest h = rw append-nil
decode_onto-token keys current (c ∷ k) rest h =
    ground
      (arith, decode_onto-token keys (current ++ c ∷ []) k rest, append_assoc current (c ∷ []) k)

decode_onto-comma :
    (keys : List Bytes) (current rest : Bytes)
    → decode_onto keys current (b',' ∷ rest) ≡ decode_onto (flush keys current) [] rest
unfolding decode_onto
decode_onto-comma keys current rest = refl

decode_onto-joined :
    (keys : List Bytes) (current : Bytes) (more : List Bytes)
    → All NoComma more
    → decode_onto keys current (joined false more)
      ≡ flush keys current ++ filter is_plausible_trait_key more
unfolding joined
decode_onto-joined keys current [] h = unfold decode_onto in sym (append-nil _)
decode_onto-joined keys current ([] ∷ more) h =
    rw nil_not_plausible (decode_onto-joined keys current more h.1)
decode_onto-joined keys current ((c ∷ k) ∷ more) h =
    decode_onto-comma keys current ((c ∷ k) ++ joined false more)
    ∙ decode_onto-token (flush keys current) [] (c ∷ k) (joined false more) h.0
    ∙ decode_onto-joined (flush keys current) (c ∷ k) more h.1
    ∙ regroup (flush keys current) (c ∷ k)
  where
    regroup :
        (ks : List Bytes) (k' : Bytes)
        → flush ks k' ++ filter is_plausible_trait_key more
          ≡ ks ++ filter is_plausible_trait_key (k' ∷ more)
    regroup ks k' = elim (Bool-cases (is_plausible_trait_key k')) [
      | inl e ↦ rw (flush-kept ks k', e) (append_assoc ks (k' ∷ []) _)
      | inr e ↦ rw (flush-kept ks k', e) (append_assoc ks [] _)
    ]

decode_onto-joined_first :
    (more : List Bytes)
    → All NoComma more
    → decode_onto [] [] (joined true more) ≡ filter is_plausible_trait_key more
unfolding joined
decode_onto-joined_first [] h = unfold decode_onto is_plausible_trait_key flush in refl
decode_onto-joined_first ([] ∷ more) h = rw nil_not_plausible (decode_onto-joined_first more h.1)
decode_onto-joined_first ((c ∷ k) ∷ more) h =
    decode_onto-token [] [] (c ∷ k) (joined false more) h.0
    ∙ decode_onto-joined [] (c ∷ k) more h.1
    ∙ (elim (Bool-cases (is_plausible_trait_key (c ∷ k))) [
      | inl e ↦ rw (flush-kept [] (c ∷ k), e)
      | inr e ↦ rw (flush-kept [] (c ∷ k), e)
    ])

-- Whatever stands in the column, only plausible keys come out of it.
pub decode_trait_keys-IsPlausible : (stored : Bytes) → All IsPlausible (decode_trait_keys stored)
unfolding decode_trait_keys
decode_trait_keys-IsPlausible stored = decode_onto-IsPlausible [] [] stored tt

-- Decoding an encoded list gives its plausible keys in order, where no key holds a comma.
pub decode-encode_trait_keys :
    (keys : List Bytes)
    → All NoComma keys
    → decode_trait_keys (encode_trait_keys keys) ≡ filter is_plausible_trait_key keys
unfolding decode_trait_keys encode_trait_keys
decode-encode_trait_keys keys h = rw (encode_onto-joined [] keys) (decode_onto-joined_first keys h)

trait_bytes-NoComma : (key : Bytes) → all is_trait_byte key ≡ true → NoComma key
trait_bytes-NoComma [] h = tt
trait_bytes-NoComma (c ∷ key) h = (λ e. ground arith, trait_bytes-NoComma key (ground arith))

IsPlausible-NoComma : (key : Bytes) → IsPlausible key → NoComma key
unfolding is_plausible_trait_key
IsPlausible-NoComma key h = trait_bytes-NoComma key (ground arith)

All-plausible-NoComma : (keys : List Bytes) → All IsPlausible keys → All NoComma keys
All-plausible-NoComma [] h = tt
All-plausible-NoComma (k ∷ keys) h = (IsPlausible-NoComma k h.0, All-plausible-NoComma keys h.1)

filter-plausible :
    (keys : List Bytes) → All IsPlausible keys → filter is_plausible_trait_key keys ≡ keys
filter-plausible [] h = refl
filter-plausible (k ∷ keys) h = rw h.0 (ap (◌∷◌ k) (filter-plausible keys h.1))

-- Plausible keys come back as they were written: those of a profile, and those read before.
pub decode-encode_plausible :
    (keys : List Bytes) → All IsPlausible keys → decode_trait_keys (encode_trait_keys keys) ≡ keys
decode-encode_plausible keys h =
    decode-encode_trait_keys keys (All-plausible-NoComma keys h) ∙ filter-plausible keys h

-- Writing back what was read changes nothing of what the next reader gets, also where the column
-- was edited by hand and some of its keys were dropped.
pub decode-encode-decode_trait_keys :
    (stored : Bytes)
    → decode_trait_keys (encode_trait_keys (decode_trait_keys stored)) ≡ decode_trait_keys stored
decode-encode-decode_trait_keys stored =
    decode-encode_plausible (decode_trait_keys stored) (decode_trait_keys-IsPlausible stored)
