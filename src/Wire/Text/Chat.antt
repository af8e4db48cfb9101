-- ===== src/Wire/Text/Chat.antt =====
-- What `ChatTextIsSane` accepts.
use twow_repo.Base.{
  ℕ, ◌≤◌, Bool, true, false, not, ◌&&◌, [], ◌∷◌, ◌≡◌, ◌≢◌, refl, ◌↔◌, arith, inl, inr, ◌==◌,
  if◌then◌else◌, Bool-cases, Bytes, length, All,
}
use twow_repo.Wire.Text.{next_is_c1, chat_bytes, chat_text_is_sane}

-- No control character of ASCII.
abbrev pub IsPrintable : ℕ → Type 0
IsPrintable c = (0x20 ≤ c) × (c ≢ 0x7f)

-- Two bytes that encode an upper control character.
abbrev pub IsC1 : ℕ → ℕ → Type 0
IsC1 c d = (c ≡ 0xc2) × (0x80 ≤ d) × (d ≤ 0x9f)

-- No two bytes that stand together encode an upper control character.
abbrev pub NoC1 : Bytes → Type 0
NoC1 [] = Unit {0}
NoC1 (c ∷ []) = Unit {0}
NoC1 (c ∷ d ∷ cs) = (¬ IsC1 c d) × NoC1 (d ∷ cs)

-- Spaces only.
abbrev pub IsBlank : Bytes → Type 0
IsBlank s = All (λ c. c ≡ b' ') s

record Accepts (all_space : Bool) (s : Bytes) : Type 0 where
  printable : All IsPrintable s
  no_c1 : NoC1 s
  some_text : ¬ ((all_space ≡ true) × IsBlank s)

chat_bytes-Accepts :
    (all_space : Bool) (s : Bytes) → chat_bytes all_space s ≡ true → Accepts all_space s
unfolding chat_bytes
chat_bytes-Accepts all_space [] h = record {
  printable = tt;
  no_c1 = tt;
  some_text = λ (e, b). ground arith;
}
chat_bytes-Accepts all_space (c ∷ cs) h =
    let a =
      chat_bytes-Accepts (if not (c == b' ') && not (c == 0x09) then false else all_space) cs
        (ground arith) in
    record {
      printable = ((ground arith, λ e. ground arith), a.printable);
      no_c1 = no_c1-cons c cs (ground arith) a.no_c1;
      some_text = λ (e, (q, b)). a.some_text (ground arith, b);
    }
  where
    no_c1-cons :
        (d : ℕ) (ds : Bytes) → (d == 0xc2 && next_is_c1 ds) ≡ false → NoC1 ds → NoC1 (d ∷ ds)
    no_c1-cons d [] e n = tt
    no_c1-cons d (f ∷ ds) e n = (λ (p, q, r). ground arith, n)

Accepts-chat_bytes :
    (all_space : Bool) (s : Bytes) → Accepts all_space s → chat_bytes all_space s ≡ true
unfolding chat_bytes
Accepts-chat_bytes true [] a = absurd (a.some_text (refl, tt))
Accepts-chat_bytes false [] a = refl
Accepts-chat_bytes all_space (c ∷ cs) a =
    let rest = Accepts-chat_bytes (flag c) cs (record {
      printable = a.printable.1;
      no_c1 = NoC1-tail c cs a.no_c1;
      some_text = λ (e, b).
          a.some_text (flag_true c (a.printable.0.0) e, (flag_space c a.printable.0.0 e, b));
    }) in
    ground (arith, NoC1-head c cs a.no_c1, rest)
  where
    flag : ℕ → Bool
    flag d = if not (d == b' ') && not (d == 0x09) then false else all_space

    flag_true : (d : ℕ) → 0x20 ≤ d → flag d ≡ true → all_space ≡ true
    flag_true d le e = ground arith

    flag_space : (d : ℕ) → 0x20 ≤ d → flag d ≡ true → d ≡ b' '
    flag_space d le e = ground arith

    NoC1-tail : (d : ℕ) (ds : Bytes) → NoC1 (d ∷ ds) → NoC1 ds
    NoC1-tail d [] n = tt
    NoC1-tail d (f ∷ ds) n = n.1

    NoC1-head : (d : ℕ) (ds : Bytes) → NoC1 (d ∷ ds) → (d == 0xc2 && next_is_c1 ds) ≡ false
    NoC1-head d [] n = ground arith
    NoC1-head d (f ∷ ds) n = elim (Bool-cases (d == 0xc2 && next_is_c1 (f ∷ ds))) [
      | inr e ↦ e
      | inl e ↦ absurd (n.0 (ground arith, ground arith, ground arith))
    ]

-- A text is accepted exactly where it has at most `max` bytes, is not blank, holds no ASCII control
-- character, a tab and a newline among them, and holds none of U+0080 to U+009F in UTF-8.
pub chat_text_is_sane_iff :
    (s : Bytes) (max : ℕ)
    → (chat_text_is_sane s max ≡ true)
      ↔ ((length s ≤ max) × All IsPrintable s × NoC1 s × (¬ IsBlank s))
unfolding chat_text_is_sane
chat_text_is_sane_iff [] max = (λ h. cc, λ w. absurd (w.3 tt))
chat_text_is_sane_iff (c ∷ cs) max = (
  λ h.
      let a = chat_bytes-Accepts true (c ∷ cs) (ground arith) in
      (ground arith, a.printable, a.no_c1, λ b. a.some_text (refl, b)),
  λ w.
      let e =
        Accepts-chat_bytes true (c ∷ cs)
          (record { printable = w.1; no_c1 = w.2; some_text = λ (q, b). w.3 b }) in
      ground arith,
)
