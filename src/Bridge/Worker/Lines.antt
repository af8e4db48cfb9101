-- ===== src/Bridge/Worker/Lines.antt =====
-- The lines of the buffer: the inner loop ends by its own test, on the fuel that a run gives it.
use twow_repo.Base.{
  ℕ, zero, suc, ◌≤◌, Bool, true, false, not, [], ◌∷◌, ◌++◌, Option, none, some, ◌≡◌, ◌⊎◌, refl, sym,
  ap, subst, ◌∙◌, inl, inr, arith, if◌then◌else◌, ◌==◌, Bool-cases, if-keeps, none_ne_some,
  some_inj, Bytes, length, any, length-append,
}
use twow_repo.Wire.Json.{Json}
use twow_repo.Bridge.Messages.Strict.{Parser, strict_json}
use twow_repo.Bridge.Worker.{
  Bridge, split_line, push_front, without_cr, handle_line, handle_record, fail_worker, applied,
  drain_lines, newline,
}
use twow_repo.Bridge.State.{Impl}
use twow_repo.Bridge.Responses.{apply_response}

abbrev has_newline : Bytes → Bool
has_newline = any (λ c. c == newline)

push_front-some :
    (c : ℕ) (o : Option (Bytes × Bytes)) (l r : Bytes)
    → push_front c o ≡ some (l, r)
    → (k : Bytes) × (o ≡ some (k, r)) × (l ≡ c ∷ k)
unfolding push_front
push_front-some c none l r h = absurd (none_ne_some h)
push_front-some c (some (k, s)) l r h =
    let e = some_inj h in (k, ap (λ t. some (k, t)) (ap (λ t. t.1) e), sym (ap (λ t. t.0) e))

-- A line and the rest are what stands around the first newline.
pub split_line-some :
    (s l r : Bytes) → split_line s ≡ some (l, r) → (s ≡ l ++ newline ∷ r) × (has_newline l ≡ false)
unfolding split_line
split_line-some [] l r h = absurd (none_ne_some h)
split_line-some (c ∷ cs) l r h = elim (Bool-cases (c == newline)) [
  | inl e ↦
      let p = some_inj (rw e at h) in
      let at_newline : c ≡ newline = ground arith in
      (
        ap (λ t. t ∷ cs) at_newline ∙ ap (λ t. t.0 ++ newline ∷ t.1) p,
        ap (λ t. has_newline t.0) (sym p),
      )
  | inr e ↦
      let (k, q, f) = push_front-some c (split_line cs) l r (rw e at h) in
      let ih = split_line-some cs k r q in
      (ap (◌∷◌ c) ih.0 ∙ ap (λ t. t ++ newline ∷ r) (sym f), ap has_newline f ∙ rw e ih.1)
]

unfoldable pub next_line : ℕ → Parser → ℕ → Bridge → Option (Bytes × Bytes) → Bridge
next_line fuel p now b none = b
next_line fuel p now b (some (line, rest)) =
    drain_lines fuel p now
      (handle_line now (strict_json p (without_cr line)) (record b { stdout_buffer = rest }))

pub drain_lines-zero : (p : Parser) (now : ℕ) (b : Bridge) → drain_lines zero p now b ≡ b
unfolding drain_lines
drain_lines-zero p now b = refl

pub drain_lines-step :
    (fuel : ℕ) (p : Parser) (now : ℕ) (b : Bridge)
    → drain_lines (suc fuel) p now b
      ≡ (if not b.running then b else next_line fuel p now b (split_line b.stdout_buffer))
unfolding drain_lines next_line
drain_lines-step fuel p now b = ground arith

applied-buffer : (o : Option Impl) (b : Bridge) → (applied o b).stdout_buffer ≡ b.stdout_buffer
unfolding applied fail_worker
applied-buffer none b = refl
applied-buffer (some s) b = refl

handle_line-buffer :
    (now : ℕ) (o : Option Json) (b : Bridge) → (handle_line now o b).stdout_buffer ≡ b.stdout_buffer
unfolding handle_line fail_worker handle_record
handle_line-buffer now none b = refl
handle_line-buffer now (some v) b =
    let a = applied-buffer (apply_response now b.pending_kind b.pending_request v b.impl) b in
    ground arith

-- The loop has been left, or no whole line is in the buffer.
abbrev pub IsDrained : Bridge → Type 0
IsDrained b = (b.running ≡ false) ⊎ (split_line b.stdout_buffer ≡ none)

split_line-nil : split_line [] ≡ none
unfolding split_line
split_line-nil = refl

-- With a round for every byte of the buffer, the loop over the lines ends by its own test.
pub drain_lines-IsDrained :
    (fuel : ℕ) (p : Parser) (now : ℕ) (b : Bridge)
    → length b.stdout_buffer ≤ fuel
    → IsDrained (drain_lines fuel p now b)
unfolding next_line
drain_lines-IsDrained zero p now b h =
    subst IsDrained (sym (drain_lines-zero p now b)) (inr (empty b.stdout_buffer h))
  where
    empty : (s : Bytes) → length s ≤ 0 → split_line s ≡ none
    empty [] l = split_line-nil
    empty (c ∷ cs) l = absurd (omega arith)
drain_lines-IsDrained (suc fuel) p now b h = subst IsDrained (sym (drain_lines-step fuel p now b)) (
    if-keeps IsDrained (not b.running) b (next_line fuel p now b (split_line b.stdout_buffer))
      (λ e. inl (stopped b.running e))
      (λ _. next (split_line b.stdout_buffer) refl (λ c l. drain_lines-IsDrained fuel p now c l)))
  where
    stopped : (r : Bool) → not r ≡ true → r ≡ false
    stopped r e = ground arith

    next :
        (o : Option (Bytes × Bytes))
        → split_line b.stdout_buffer ≡ o
        → ((c : Bridge) → length c.stdout_buffer ≤ fuel → IsDrained (drain_lines fuel p now c))
        → IsDrained (next_line fuel p now b o)
    next none e ih = inr e
    next (some (line, rest)) e ih =
        let s = split_line-some b.stdout_buffer line rest e in
        let read = record b { stdout_buffer = rest } in
        let l = ap length s.0 in
        ih (handle_line now (strict_json p (without_cr line)) read) (
          rw (handle_line-buffer now (strict_json p (without_cr line)) read)
            (omega (arith, l, length-append line (newline ∷ rest), h)))
