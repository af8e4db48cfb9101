-- ===== src/Bridge/Utf8/Strings.antt =====
-- DecodeUtf8: the strings that are sequences of encoded code points.
use twow_repo.Base.{
  ℕ, zero, suc, ◌+◌, ◌≤◌, Bool, false, ◌&&◌, ◌||◌, List, [], ◌∷◌, ◌++◌, none, some, ◌≡◌, refl, ap,
  ◌∙◌, leb, ◌==◌, if◌then◌else◌, arith, Bytes, length, take, drop, All, ◌↔◌, Bool-cases,
  Option-cases, inl, inr, length-append,
}
use twow_repo.Bridge.Utf8.{
  decode_scalar, decode_from, decode_utf8, lead, continued, is_allowed, finish_scalar, after_lead,
}
use twow_repo.Bridge.Utf8.Scalars.{IsScalar, encode_scalar, encode-decode_scalar}

-- A sequence of code points in UTF-8.
unfoldable pub encode_all : List ℕ → Bytes
encode_all [] = []
encode_all (c ∷ cs) = encode_scalar c ++ encode_all cs

abbrev pub is_control : ℕ → Bool
is_control c = leb c 0x1f || c == 0x7f

decode_from-step :
    (reject : Bool) (c k : ℕ) (rest : Bytes)
    → IsScalar c
    → decode_from reject 0 k (encode_scalar c ++ rest)
      ≡ (if reject && is_control c then none else decode_from reject 0 (k + 1) rest)
unfolding decode_from encode_scalar decode_scalar after_lead lead continued finish_scalar is_allowed
decode_from-step reject c k rest h = ground arith

-- What a caller may be sent: scalar values, and no controls where these are rejected.
abbrev pub AllPass : Bool → List ℕ → Type 0
AllPass reject = All λ c. IsScalar c × ((reject && is_control c) ≡ false)

decode_from-encode_all :
    (reject : Bool) (k : ℕ) (cs : List ℕ)
    → AllPass reject cs
    → decode_from reject 0 k (encode_all cs) ≡ some (k + length cs)
unfolding encode_all decode_from
decode_from-encode_all reject k [] h = ground arith
decode_from-encode_all reject k (c ∷ cs) h =
    decode_from-step reject c k (encode_all cs) h.0.0
    ∙ rw h.0.1 (decode_from-encode_all reject (k + 1) cs h.1 ∙ ap some (omega arith))

take-append-drop {ℓ} : {A : Type ℓ} (n : ℕ) (xs : List A) → xs ≡ take n xs ++ drop n xs
take-append-drop zero xs = refl
take-append-drop (suc n) [] = refl
take-append-drop (suc n) (x ∷ xs) = ap (◌∷◌ x) (take-append-drop n xs)

-- A string that a code point can be read off is its encoding, and the rest.
pub front :
    (s : Bytes) (c n : ℕ)
    → decode_scalar s ≡ some (c, n)
    → IsScalar c × (s ≡ encode_scalar c ++ drop n s)
front s c n h = let e = encode-decode_scalar s c n h in (e.0, rw (← e.1) (take-append-drop n s))

pub length-encode_scalar : (c : ℕ) → 1 ≤ length (encode_scalar c)
unfolding encode_scalar
length-encode_scalar c = ground arith

pub length-front : (s r : Bytes) (c : ℕ) → s ≡ encode_scalar c ++ r → suc (length r) ≤ length s
length-front s r c e =
    omega (arith, ap length e, length-append (encode_scalar c) r, length-encode_scalar c)

abbrev Spells : Bool → ℕ → ℕ → Bytes → Type 0
Spells reject k m s = (cs : List ℕ) × (s ≡ encode_all cs) × AllPass reject cs × (m ≡ k + length cs)

decode_from-undecodable :
    (reject : Bool) (k : ℕ) (b : ℕ) (bs : Bytes)
    → decode_scalar (b ∷ bs) ≡ none
    → decode_from reject 0 k (b ∷ bs) ≡ none
unfolding decode_from
decode_from-undecodable reject k b bs e = rw (e, decode_from) refl

decode_from-end : (reject : Bool) (k m : ℕ) → decode_from reject 0 k [] ≡ some m → m ≡ k + 0
unfolding decode_from
decode_from-end reject k m h = ground arith

decode_from-Spells :
    (fuel : ℕ) (reject : Bool) (k m : ℕ) (s : Bytes)
    → length s ≤ fuel
    → decode_from reject 0 k s ≡ some m
    → Spells reject k m s
unfolding encode_all
decode_from-Spells fuel reject k m [] l h = ([], refl, tt, decode_from-end reject k m h)
decode_from-Spells zero reject k m (b ∷ bs) l h = absurd (omega arith)
decode_from-Spells (suc fuel) reject k m (b ∷ bs) l h =
    elim (Option-cases (decode_scalar (b ∷ bs))) [
      | inl e ↦ absurd (cc (decode_from-undecodable reject k b bs e))
      | inr ((c, n), e) ↦
          let f = front (b ∷ bs) c n e in
          let r = drop n (b ∷ bs) in
          let step = decode_from-step reject c k r f.0 in
          let shorter = length-front (b ∷ bs) r c f.1 in
          let here = ap (decode_from reject 0 k) f.1 in
          elim (Bool-cases (reject && is_control c)) [
            | inl bad ↦ absurd (cc (rw bad at step))
            | inr good ↦
                let rest =
                  decode_from-Spells fuel reject (k + 1) m r (omega arith) (cc (rw good at step)) in
                (
                  c ∷ rest.0,
                  f.1 ∙ ap (◌++◌ (encode_scalar c)) rest.1,
                  ((f.0, good), rest.2),
                  omega (arith, rest.3),
                )
          ]
    ]

-- `DecodeUtf8` accepts exactly the strings that some sequence of scalar values, without controls
-- where the caller rejects them, is encoded as, and it counts the code points of that sequence.
pub decode_utf8_iff :
    (reject : Bool) (value : Bytes) (m : ℕ)
    → (decode_utf8 reject value ≡ some m)
      ↔ ((cs : List ℕ) × (value ≡ encode_all cs) × AllPass reject cs × (m ≡ length cs))
unfolding decode_utf8
decode_utf8_iff reject value m = (
  λ h.
      (let s = decode_from-Spells (length value) reject 0 m value (omega arith) h in
        (s.0, s.1, s.2, omega (arith, s.3))),
  λ s. rw s.1 (decode_from-encode_all reject 0 s.0 s.2 ∙ ap some (omega (arith, s.3))),
)
