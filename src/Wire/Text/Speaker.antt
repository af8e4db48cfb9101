-- ===== src/Wire/Text/Speaker.antt =====
-- What `SpeakerNameIsSane` promises: a name that cannot leave the place it is quoted in.
use mathlib.Core.Bool.{false≢true}
use twow_repo.Base.{
  ap, ◌∙◌, and-true, ℕ, zero, suc, ◌+◌, ◌-◌, ◌*◌, ◌≤◌, ◌<◌, Bool, true, false, not, ◌&&◌, ◌||◌, [],
  ◌∷◌, some, ◌≡◌, refl, arith, inl, inr, ◌⊎◌, leb, ltb, Bool-cases, Option-cases, Bytes, length,
  take, all, All,
}
use twow_repo.Wire.Text.{
  is_ascii_letter, lead_length, is_continuation, sequence_ok, speaker_runes, speaker_name_is_sane,
}

-- An ASCII letter, or a byte of a longer sequence.
abbrev pub is_name_byte : ℕ → Bool
is_name_byte c = is_ascii_letter c || leb 0x80 c

abbrev IsByte : ℕ → Type 0
IsByte c = c < 256

-- Whether a test holds of a byte and of each one before it.
holds_up_to : (ℕ → Bool) → ℕ → Bool
holds_up_to test zero = test zero
holds_up_to test (suc top) = holds_up_to test top && test (suc top)

holds_up_to-at :
    (test : ℕ → Bool) (top c : ℕ) → c ≤ top → holds_up_to test top ≡ true → test c ≡ true
unfolding holds_up_to
holds_up_to-at test zero c le h = ap test {y = 0} (omega arith) ∙ h
holds_up_to-at test (suc top) c le h =
    let both = and-true (holds_up_to test top) (test (suc top)) h in
    elim (Bool-cases (leb c top)) [
      | inl below ↦ holds_up_to-at test top c (ground arith) both.0
      | inr above ↦ ap test {y = suc top} (ground arith) ∙ both.1
    ]

continuation_table : holds_up_to (λ c. not (is_continuation c) || leb 0x80 c) 255 ≡ true
unfolding holds_up_to is_continuation
continuation_table = refl

continuation-high : (c : ℕ) → c < 256 → is_continuation c ≡ true → leb 0x80 c ≡ true
continuation-high c lt h = ground (
  arith,
  holds_up_to-at (λ d. not (is_continuation d) || leb 0x80 d) 255 c (omega arith)
      continuation_table,
)

-- The bytes that are skipped are continuation bytes.
abbrev skips : ℕ → Bytes → Bool
skips skip cs = leb skip (length cs) && all is_continuation (take skip cs)

record Named (skip runes : ℕ) (cs : Bytes) (total : ℕ) : Type 0 where
  safe : all is_name_byte cs ≡ true
  enough : total + skip ≤ runes + length cs
  few : runes ≤ total
  short : length cs + 4 * runes ≤ 4 * total + skip

lead_length-bounds : (c len : ℕ) → lead_length c ≡ some len → (2 ≤ len) × (len ≤ 4)
unfolding lead_length
lead_length-bounds c len h = ground arith

letter_step :
    (c runes total : ℕ) (cs : Bytes)
    → is_ascii_letter c ≡ true
    → Named 0 (runes + 1) cs total
    → Named 0 runes (c ∷ cs) total
letter_step c runes total cs a n = record {
  safe = ground (arith, n.safe);
  enough = omega (arith, n.enough);
  few = omega (arith, n.few);
  short = omega (arith, n.short);
}

sequence_step :
    (c len runes total : ℕ) (cs : Bytes)
    → ltb c 0x80 ≡ false
    → 2 ≤ len
    → len ≤ 4
    → Named (len - 1) (runes + 1) cs total
    → Named 0 runes (c ∷ cs) total
sequence_step c len runes total cs a lo hi n = record {
  safe = ground (arith, n.safe);
  enough = omega (arith, n.enough);
  few = omega (arith, n.few);
  short = omega (arith, n.short);
}

speaker_runes-Named :
    (skip runes : ℕ) (cs : Bytes) (total : ℕ)
    → All IsByte cs
    → skips skip cs ≡ true
    → speaker_runes skip runes cs ≡ some total
    → Named skip runes cs total
unfolding speaker_runes
speaker_runes-Named zero runes [] total b k h = record {
  safe = refl;
  enough = ground arith;
  few = ground arith;
  short = ground arith;
}
speaker_runes-Named (suc skip) runes [] total b k h = absurd (ground arith)
speaker_runes-Named (suc skip) runes (c ∷ cs) total b k h =
    let n = speaker_runes-Named skip runes cs total b.1 (ground arith) h in
    record {
      safe = ground (arith, n.safe, continuation-high c b.0);
      enough = omega (arith, n.enough);
      few = omega (arith, n.few);
      short = omega (arith, n.short);
    }
speaker_runes-Named zero runes (c ∷ cs) total b k h = elim (Bool-cases (ltb c 0x80)) [
  | inl ascii ↦
      letter_step c runes total cs (ground arith)
        (speaker_runes-Named zero (runes + 1) cs total b.1 (ground arith) (ground arith))
  | inr high ↦ elim (Option-cases (lead_length c)) [
    | inl e ↦ absurd (ground arith)
    | inr (len, e) ↦
        let bounds = lead_length-bounds c len e in
        sequence_step c len runes total cs high bounds.0 bounds.1 (
          speaker_runes-Named (len - 1) (runes + 1) cs total b.1
            (unfold sequence_ok in ground arith) (ground arith))
  ]
]

-- Of an accepted name every ASCII byte is a letter, so that no quote, brace, digit, space or line
-- break stands in it, and it is empty or of 2 to 48 bytes.
pub speaker_name_is_sane-safe :
    (name : Bytes)
    → All IsByte name
    → speaker_name_is_sane name ≡ true
    → (all is_name_byte name ≡ true) × ((name ≡ []) ⊎ ((2 ≤ length name) × (length name ≤ 48)))
unfolding speaker_name_is_sane
speaker_name_is_sane-safe [] b h = (refl, inl refl)
speaker_name_is_sane-safe (c ∷ cs) b h = elim (Option-cases (speaker_runes 0 0 (c ∷ cs))) [
  | inl e ↦ absurd (false≢true (rw e at h))
  | inr (total, e) ↦
      let n = speaker_runes-Named 0 0 (c ∷ cs) total b (ground arith) e in
      let range : (2 ≤ total) × (total ≤ 12) = in_range total (rw e at h) in
      (n.safe, inr (omega (arith, n.enough), omega (arith, n.short)))
]
  where
    in_range : (t : ℕ) → (leb 2 t && leb t 12) ≡ true → (2 ≤ t) × (t ≤ 12)
    in_range t e = (ground arith, ground arith)
