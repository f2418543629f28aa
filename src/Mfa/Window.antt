-- ===== src/Mfa/Window.antt =====
-- auth/mfa/totp.go, ValidateCodeWithWindow: the codes that it accepts.
use eidola.Common.{
  ℕ, zero, suc, ◌+◌, ◌-◌, ◌*◌, ◌/◌, ◌≤◌, ◌<◌, String, ◌≡◌, sym, ap, subst, ◌∙◌, ◌↔◌, ◌⊎◌, inl, inr,
  true, some, arith, str_eq, eq_iff, eq_refl, Bool-cases, Option-cases,
}
use native.Mathlib.Nat.{add-mul-div_right}
use eidola.Mfa.Totp.{
  TotpConfig, Library, byte_length, generate_otp, generate_code_at, validate_steps,
  validate_code_with_window,
}

module _ (lib : Library) where
  -- A step, of a number of them from a time on, has the code.
  abbrev Step : TotpConfig → String → ℕ → ℕ → Type 0
  Step t code at n = (k : ℕ) × ((k < n) × (generate_code_at lib t (at + k * t.period) ≡ some code))

  later-Step :
      (t : TotpConfig) (code : String) (at n : ℕ)
      → Step t code (at + t.period) n
      → Step t code at (suc n)
  later-Step t code at n (k, (lt, e)) =
      (suc k, (omega arith, subst (λ x. generate_code_at lib t x ≡ some code) (omega arith) e))

  rest_sound :
      (t : TotpConfig) (code : String) (at n : ℕ)
      → validate_steps lib t code at (suc n) ≡ true
      → (generate_code_at lib t at ≡ some code)
        ⊎ (validate_steps lib t code (at + t.period) n ≡ true)
  unfolding validate_steps
  rest_sound t code at n h = elim (Option-cases (generate_code_at lib t at)) [
    | inl e ↦ inr (ground arith)
    | inr (c, e) ↦ elim (Bool-cases (str_eq c code)) [
      | inl same ↦ inl (ground (arith, eq_iff c code))
      | inr other ↦ inr (ground arith)
    ]
  ]

  steps_sound :
      (t : TotpConfig) (code : String) (at n : ℕ)
      → validate_steps lib t code at n ≡ true
      → Step t code at n
  unfolding validate_steps
  steps_sound t code at zero h = absurd (ground arith)
  steps_sound t code at (suc n) h = elim (rest_sound t code at n h) [
    | inl e ↦ (0, (omega arith, subst (λ x. generate_code_at lib t x ≡ some code) (omega arith) e))
    | inr r ↦ later-Step t code at n (steps_sound t code (at + t.period) n r)
  ]

  steps_complete :
      (t : TotpConfig) (code : String) (at n k : ℕ)
      → k < n
      → generate_code_at lib t (at + k * t.period) ≡ some code
      → validate_steps lib t code at n ≡ true
  unfolding validate_steps
  steps_complete t code at zero k lt e = absurd (omega arith)
  steps_complete t code at (suc n) zero lt e =
      let now : generate_code_at lib t at ≡ some code =
        subst (λ x. generate_code_at lib t x ≡ some code) (omega arith) e in
      ground (arith, eq_refl code)
  steps_complete t code at (suc n) (suc k) lt e =
      let rest : validate_steps lib t code (at + t.period) n ≡ true =
        steps_complete t code (at + t.period) n k (omega arith)
          (subst (λ x. generate_code_at lib t x ≡ some code) (omega arith) e) in
      elim (Option-cases (generate_code_at lib t at)) [
        | inl none_now ↦ ground arith
        | inr (c, some_now) ↦ ground arith
      ]

  -- The counter of a step of the loop, from that of the time of the call.
  step-counter :
      (w now p k : ℕ)
      → 0 < p
      → w * p ≤ now
      → ((now - w * p + k * p) / p + w ≡ now / p + k) × (w ≤ now / p)
  step-counter w now p k pos le =
      let step = add-mul-div_right (now - w * p) k pos in
      let whole = add-mul-div_right (now - w * p) w pos in
      let split : now - w * p + w * p ≡ now = omega arith in
      let start : now / p ≡ (now - w * p) / p + w = ap (λ x. x / p) (sym split) ∙ whole in
      (omega arith, omega arith)

  -- What a code has to pass.
  passes :
      (t : TotpConfig) (input : String) (window now : ℕ)
      → (validate_code_with_window lib t input window now ≡ true) ↔ (
          (byte_length (lib.trim_space input) ≡ t.digits)
          × (validate_steps lib t
                (lib.trim_space input)
                (now - window * t.period)
                (suc (window + window))
              ≡ true))
  unfolding validate_code_with_window
  passes t input window now = (λ h. (ground arith, ground arith), λ h. ground arith)

  -- It is the code of a counter no more than the window away from that of the time.
  abbrev pub Near : TotpConfig → String → ℕ → ℕ → Type 0
  Near t code window now =
      (c : ℕ) × ((now / t.period ≤ c + window)
        × (c ≤ now / t.period + window)
        × (generate_otp lib t c ≡ some code))

  Near-Step :
      (t : TotpConfig) (code : String) (window now : ℕ)
      → 0 < t.period
      → window * t.period ≤ now
      → Step t code (now - window * t.period) (suc (window + window)) ↔ Near t code window now
  unfolding generate_code_at
  Near-Step t code window now pos le = (
    (λ s.
        let c = step-counter window now t.period s.0 pos le in
        ((now - window * t.period + s.0 * t.period) / t.period, (omega arith, omega arith, s.1.1))),
    (λ s.
        let k = s.0 + window - now / t.period in
        let c = step-counter window now t.period k pos le in
        let same : s.0 ≡ (now - window * t.period + k * t.period) / t.period = omega arith in
        (k, (omega arith, subst (λ x. generate_otp lib t x ≡ some code) same s.1.2))),
  )

  -- A code is accepted exactly if it has, without the space around it, as many bytes as there are
  -- digits and is the code of a counter no more than the window away from that of the time: where
  -- that many steps have passed since time zero.
  pub validate-window :
      (t : TotpConfig) (input : String) (window now : ℕ)
      → 0 < t.period
      → window * t.period ≤ now
      → (validate_code_with_window lib t input window now ≡ true) ↔ (
          (byte_length (lib.trim_space input) ≡ t.digits)
          × Near t (lib.trim_space input) window now)
  validate-window t input window now pos le =
      let code = lib.trim_space input in
      let steps = Near-Step t code window now pos le in
      let parts = passes t input window now in
      (
        (λ h. (
          (parts.0 h).0,
          steps.0
              (steps_sound t code (now - window * t.period) (suc (window + window)) (parts.0 h).1),
        )),
        (λ h.
            let s = steps.1 h.1 in
            parts.1 (
              h.0,
              steps_complete t code (now - window * t.period) (suc (window + window)) s.0 s.1.0
                  s.1.1,
            )),
      )
