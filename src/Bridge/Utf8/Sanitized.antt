-- ===== src/Bridge/Utf8/Sanitized.antt =====
-- IsCanonicalSanitizedText, read on code points.
use twow_repo.Base.{
  ℕ, suc, ◌+◌, ◌-◌, ◌/◌, ◌%◌, ◌≤◌, Bool, true, false, not, ◌&&◌, ◌||◌, List, [], ◌∷◌, ◌++◌, some,
  ◌≡◌, refl, sym, ap, ◌∙◌, ltb, leb, ◌==◌, if◌then◌else◌, arith, Bytes, length, ◌↔◌, Option-cases,
  Bool-cases, inl, inr, length-append, is_empty,
}
use twow_repo.Wire.Text.{starts_with_byte, ends_with_byte}
use twow_repo.Bridge.Utf8.{
  decode_scalar, decode_utf8, is_wide_whitespace, is_terminator, next_is_space, sanitized_from,
  is_canonical_sanitized_text, within_codepoints,
}
use twow_repo.Bridge.Utf8.Scalars.{IsScalar, encode_scalar, decode-encode_scalar}
use twow_repo.Bridge.Utf8.Strings.{encode_all, AllPass, decode_utf8_iff, length-encode_scalar}

-- How many maximal runs of terminators there are.
abbrev pub runs_of : Bool → List ℕ → ℕ
runs_of in_run [] = 0
runs_of in_run (c ∷ cs) =
    (if is_terminator c && not in_run then 1 else 0) + runs_of (is_terminator c) cs

-- No white space but single spaces.
abbrev pub single_spaces : List ℕ → Bool
single_spaces [] = true
single_spaces (c ∷ cs) =
    not (is_wide_whitespace c) && not (c == b' ' && starts_with_byte b' ' cs) && single_spaces cs

sanitized_from-decoded :
    (in_run : Bool) (runs c n b : ℕ) (bs : Bytes)
    → decode_scalar (b ∷ bs) ≡ some (c, n)
    → sanitized_from in_run runs 0 (b ∷ bs) ≡ (
        if is_wide_whitespace c
        then false
        else if c == b' ' && next_is_space bs
        then false
        else sanitized_from
            (is_terminator c)
            (if is_terminator c && not in_run then runs + 1 else runs)
            (n - 1)
            bs)
unfolding sanitized_from
sanitized_from-decoded in_run runs c n b bs e = rw (e, sanitized_from) refl

sanitized_from-skip :
    (in_run : Bool) (runs : ℕ) (xs rest : Bytes)
    → sanitized_from in_run runs (length xs) (xs ++ rest) ≡ sanitized_from in_run runs 0 rest
unfolding sanitized_from
sanitized_from-skip in_run runs [] rest = refl
sanitized_from-skip in_run runs (x ∷ xs) rest = sanitized_from-skip in_run runs xs rest

-- An encoding has a first byte, and for a space no other.
encoded_shape :
    (c : ℕ) → (b : ℕ) × (bs : Bytes) × (encode_scalar c ≡ b ∷ bs) × (c == b' ' ≡ true → bs ≡ [])
unfolding encode_scalar
encoded_shape c = elim (Bool-cases (ltb c 0x80)) [
  | inl e ↦ rw e (c, [], refl, λ _. refl)
  | inr e ↦ elim (Bool-cases (ltb c 0x800)) [
    | inl k ↦ rw (e, k) (0xc0 + c / 64, (0x80 + c % 64) ∷ [], refl, λ h. absurd (ground arith))
    | inr k ↦ elim (Bool-cases (ltb c 0x10000)) [
      | inl l ↦
          rw (e, k, l)
            (
              0xe0 + c / 4096,
              (0x80 + c / 64 % 64) ∷ (0x80 + c % 64) ∷ [],
              refl,
              λ h. absurd (ground arith),
            )
      | inr l ↦
          rw (e, k, l)
            (
              0xf0 + c / 262144,
              (0x80 + c / 4096 % 64) ∷ (0x80 + c / 64 % 64) ∷ (0x80 + c % 64) ∷ [],
              refl,
              λ h. absurd (ground arith),
            )
    ]
  ]
]

pred_suc : (n : ℕ) → suc n - 1 ≡ n
pred_suc n = omega arith

sanitized_from-step :
    (in_run : Bool) (runs c : ℕ) (rest : Bytes)
    → IsScalar c
    → sanitized_from in_run runs 0 (encode_scalar c ++ rest) ≡ (
        if is_wide_whitespace c
        then false
        else if c == b' ' && next_is_space rest
        then false
        else sanitized_from
            (is_terminator c)
            (if is_terminator c && not in_run then runs + 1 else runs)
            0
            rest)
sanitized_from-step in_run runs c rest h =
    let (b, bs, e, alone) = encoded_shape c in
    let d = decode-encode_scalar c rest h in
    let k = sanitized_from-decoded in_run runs c (suc (length bs)) b (bs ++ rest) (rw e at d) in
    let after =
      sanitized_from (is_terminator c) (if is_terminator c && not in_run then runs + 1 else runs) in
    let skip =
      sanitized_from-skip (is_terminator c)
        (if is_terminator c && not in_run then runs + 1 else runs) bs rest in
    elim (Bool-cases (c == b' ')) [
      | inl space ↦ rw e (k ∙ rw (alone space) refl)
      | inr other ↦
          rw (e, k, other)
            (ap (λ t. if is_wide_whitespace c then false else t)
              (ap (λ n. after n (bs ++ rest)) (pred_suc (length bs)) ∙ skip))
    ]

starts_with-encode_all :
    (cs : List ℕ) → starts_with_byte b' ' (encode_all cs) ≡ starts_with_byte b' ' cs
unfolding encode_all encode_scalar
starts_with-encode_all [] = refl
starts_with-encode_all (c ∷ cs) = ground arith

ends_with-append :
    (b : ℕ) (xs : Bytes) (y : ℕ) (ys : Bytes)
    → ends_with_byte b (xs ++ y ∷ ys) ≡ ends_with_byte b (y ∷ ys)
ends_with-append b [] y ys = refl
ends_with-append b (x ∷ []) y ys = refl
ends_with-append b (x ∷ z ∷ xs) y ys = ends_with-append b (z ∷ xs) y ys

ends_with-encode_all : (cs : List ℕ) → ends_with_byte b' ' (encode_all cs) ≡ ends_with_byte b' ' cs
unfolding encode_all
ends_with-encode_all [] = refl
ends_with-encode_all (c ∷ []) = unfold encode_scalar in ground arith
ends_with-encode_all (c ∷ d ∷ cs) =
    let (b, bs, e, _) = encoded_shape d in
    ap (λ t. ends_with_byte b' ' (encode_scalar c ++ (t ++ encode_all cs))) e
    ∙ ends_with-append b' ' (encode_scalar c) b (bs ++ encode_all cs)
    ∙ ap (λ t. ends_with_byte b' ' (t ++ encode_all cs)) (sym e)
    ∙ ends_with-encode_all (d ∷ cs)

regrouped :
    (in_run : Bool) (runs c : ℕ) (cs : List ℕ)
    → (if is_wide_whitespace c
        then false
        else if c == b' ' && starts_with_byte b' ' cs
        then false
        else single_spaces cs
          && leb
              ((if is_terminator c && not in_run then runs + 1 else runs)
                + runs_of (is_terminator c) cs)
              2)
      ≡ (single_spaces (c ∷ cs) && leb (runs + runs_of in_run (c ∷ cs)) 2)
regrouped in_run runs c cs = ground arith

sanitized_from-encode_all :
    (in_run : Bool) (runs : ℕ) (cs : List ℕ)
    → AllPass true cs
    → sanitized_from in_run runs 0 (encode_all cs)
      ≡ (single_spaces cs && leb (runs + runs_of in_run cs) 2)
unfolding encode_all
sanitized_from-encode_all in_run runs [] h =
    unfold sanitized_from in ap (λ n. leb n 2) (omega arith)
sanitized_from-encode_all in_run runs (c ∷ cs) h =
    let step = sanitized_from-step in_run runs c (encode_all cs) h.0.0 in
    let ih =
      sanitized_from-encode_all (is_terminator c)
        (if is_terminator c && not in_run then runs + 1 else runs) cs h.1 in
    let spaces = starts_with-encode_all cs in step ∙ rw (spaces, ih) (regrouped in_run runs c cs)

-- What may be whispered, as code points.
pub record IsSpoken (cs : List ℕ) : Type 0 where
  pub scalars : AllPass true cs
  pub some_text : is_empty cs ≡ false
  pub short : length (encode_all cs) ≤ 240
  pub no_space_first : starts_with_byte b' ' cs ≡ false
  pub no_space_last : ends_with_byte b' ' cs ≡ false
  pub spaced : single_spaces cs ≡ true
  pub terminated : runs_of false cs ≤ 2

length-le-encode_all : (cs : List ℕ) → length cs ≤ length (encode_all cs)
unfolding encode_all
length-le-encode_all [] = omega arith
length-le-encode_all (c ∷ cs) = omega (
  arith,
  length-le-encode_all cs,
  length-append (encode_scalar c) (encode_all cs),
  length-encode_scalar c,
)

is_empty-encode_all : (cs : List ℕ) → is_empty (encode_all cs) ≡ is_empty cs
unfolding encode_all
is_empty-encode_all [] = refl
is_empty-encode_all (c ∷ cs) =
    let (b, bs, e, _) = encoded_shape c in ap (λ t. is_empty (t ++ encode_all cs)) e

abbrev spoken_tests : List ℕ → Bool
spoken_tests cs =
    if is_empty cs
      || ltb 240 (length (encode_all cs))
      || starts_with_byte b' ' cs
      || ends_with_byte b' ' cs
    then false
    else if not (leb (length cs) 240)
    then false
    else single_spaces cs && leb (runs_of false cs) 2

-- On an encoded text the function is a conjunction of tests on its code points.
sanitized-encode_all :
    (cs : List ℕ) → AllPass true cs → is_canonical_sanitized_text (encode_all cs) ≡ spoken_tests cs
unfolding is_canonical_sanitized_text within_codepoints
sanitized-encode_all cs h =
    rw
      (
        is_empty-encode_all cs,
        starts_with-encode_all cs,
        ends_with-encode_all cs,
        (decode_utf8_iff true (encode_all cs) (length cs)).1 (cs, refl, h, refl),
        sanitized_from-encode_all false 0 cs h,
      )
      (ground arith)

decoded_of_sanitized :
    (text : Bytes)
    → is_canonical_sanitized_text text ≡ true
    → (m : ℕ) × (decode_utf8 true text ≡ some m)
unfolding is_canonical_sanitized_text within_codepoints
decoded_of_sanitized text h = elim (Option-cases (decode_utf8 true text)) [
  | inl e ↦ absurd (ground arith)
  | inr p ↦ p
]

-- `IsCanonicalSanitizedText` accepts exactly the encodings of a text of scalar values that is not
-- empty, takes at most 240 bytes, has no control and no ECMAScript white space but single spaces
-- between other characters, and has at most two runs of `.`, `!`, `?` and the ellipsis.
pub is_canonical_sanitized_text_iff :
    (text : Bytes)
    → (is_canonical_sanitized_text text ≡ true)
      ↔ ((cs : List ℕ) × (text ≡ encode_all cs) × IsSpoken cs)
is_canonical_sanitized_text_iff text = (
  λ h.
      let (m, d) = decoded_of_sanitized text h in
      let (cs, e, pass, _) = (decode_utf8_iff true text m).0 d in
      let tests = sym (sanitized-encode_all cs pass) ∙ ap is_canonical_sanitized_text (sym e) ∙ h in
      (cs, e, spoken cs pass tests),
  λ p.
      rw p.1
        (sanitized-encode_all p.0 p.2.scalars ∙ (let l = length-le-encode_all p.0 in ground arith)),
)
  where
    spoken : (cs : List ℕ) → AllPass true cs → spoken_tests cs ≡ true → IsSpoken cs
    spoken cs pass t = record {
      scalars = pass;
      some_text = ground arith;
      short = ground arith;
      no_space_first = ground arith;
      no_space_last = ground arith;
      spaced = ground arith;
      terminated = ground arith;
    }
