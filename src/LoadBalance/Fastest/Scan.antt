-- ===== src/LoadBalance/Fastest/Scan.antt =====
-- loadbalance/fastest/balancer.go: what the loop of Pick ends with.
-- latest response times.
use eidola.Common.{
  ℕ, suc, ◌≤◌, ◌≡◌, refl, sym, ap, ◌∙◌, ◌⊎◌, inl, inr, Bool, true, false, none, some, List, [], ◌∷◌,
  arith, Bool-cases, length, get_elem?, All,
}
use eidola.LoadBalance.Fastest.{Conn, faster, fastest}

module _ {C A : Type 0} where
  -- No connection of the list that passes is faster.
  abbrev pub Fits : (A → Bool) → ℕ → List (Conn C A) → Type 0
  Fits p bound = All (λ d. (p d.address ≡ false) ⊎ (bound ≤ d.response))

  -- A passing connection of the list with the response time of `r`.
  abbrev pub Among : (A → Bool) → Conn C A → List (Conn C A) → Type 0
  Among p r cs = (i : ℕ) × ((get_elem? cs i ≡ some r) × (p r.address ≡ true))

  later-Among :
      (p : A → Bool) (r c : Conn C A) (cs : List (Conn C A)) → Among p r cs → Among p r (c ∷ cs)
  later-Among p r c cs (i, at) = (suc i, at)

  faster-cases :
      (p : A → Bool) (res c : Conn C A)
      → ((faster p (some res) c ≡ some res) × ((p c.address ≡ false) ⊎ (res.response ≤ c.response)))
        ⊎ ((faster p (some res) c ≡ some c) × (p c.address ≡ true) × (c.response ≤ res.response))
  unfolding faster
  faster-cases p res c = ground arith

  fits_less :
      (p : A → Bool) (r res c : Conn C A)
      → r.response ≤ res.response
      → (p c.address ≡ false) ⊎ (res.response ≤ c.response)
      → (p c.address ≡ false) ⊎ (r.response ≤ c.response)
  fits_less p r res c le h = ground arith

  -- What the loop ends with: the connection before it or one of the list, no slower than these.
  fastest-Fits :
      (p : A → Bool) (res : Conn C A) (cs : List (Conn C A)) (r : Conn C A)
      → fastest p (some res) cs ≡ some r
      → (r.response ≤ res.response) × Fits p r.response cs × ((r ≡ res) ⊎ Among p r cs)
  unfolding fastest
  fastest-Fits p res [] r e = (ground arith, tt, inl (ground arith))
  fastest-Fits p res (c ∷ cs) r e = elim (faster-cases p res c) [
    | inl (same, slow) ↦
        let (le, fits, from) = fastest-Fits p res cs r (ap (λ x. fastest p x cs) (sym same) ∙ e) in
        (
          le,
          (fits_less p r res c le slow, fits),
          elim from [ inl eq ↦ inl eq | inr a ↦ inr (later-Among p r c cs a) ],
        )
    | inr (new, pass, le) ↦
        let (less, fits, from) = fastest-Fits p c cs r (ap (λ x. fastest p x cs) (sym new) ∙ e) in
        (
          omega (arith, less, le),
          (inr less, fits),
          elim from [
            | inl eq ↦ inr (0, (ap some (sym eq), ap (λ x. p x.address) eq ∙ pass))
            | inr a ↦ inr (later-Among p r c cs a)
          ],
        )
  ]

  pub fastest-picks :
      (p : A → Bool) (cs : List (Conn C A)) (r : Conn C A)
      → fastest p none cs ≡ some r
      → Fits p r.response cs × Among p r cs
  unfolding fastest faster
  fastest-picks p [] r e = absurd (ground arith)
  fastest-picks p (c ∷ cs) r e = elim (Bool-cases (p c.address)) [
    | inl pass ↦
        let (le, fits, from) = fastest-Fits p c cs r (ground arith) in
        (
          (inr le, fits),
          elim from [
            | inl eq ↦ (0, (ap some (sym eq), ap (λ x. p x.address) eq ∙ pass))
            | inr a ↦ later-Among p r c cs a
          ],
        )
    | inr skip ↦
        let (fits, at) = fastest-picks p cs r (ground arith) in
        ((inl skip, fits), later-Among p r c cs at)
  ]

  fastest-some :
      (p : A → Bool) (res : Conn C A) (cs : List (Conn C A))
      → (r : Conn C A) × (fastest p (some res) cs ≡ some r)
  unfolding fastest faster
  fastest-some p res [] = (res, refl)
  fastest-some p res (c ∷ cs) = elim (faster-cases p res c) [
    | inl (same, slow) ↦
        let (r, e) = fastest-some p res cs in (r, ap (λ x. fastest p x cs) same ∙ e)
    | inr (new, pass, le) ↦
        let (r, e) = fastest-some p c cs in (r, ap (λ x. fastest p x cs) new ∙ e)
  ]

  pub fastest-none :
      (p : A → Bool) (cs : List (Conn C A))
      → fastest p none cs ≡ none
      → All (λ d. p d.address ≡ false) cs
  unfolding fastest faster
  fastest-none p [] e = tt
  fastest-none p (c ∷ cs) e = elim (Bool-cases (p c.address)) [
    | inl pass ↦ let (r, found) = fastest-some p c cs in absurd (ground arith)
    | inr skip ↦ (skip, fastest-none p cs (ground arith))
  ]

  pub fastest-empty :
      (p : A → Bool) (cs : List (Conn C A)) → length cs ≡ 0 → fastest p none cs ≡ none
  unfolding fastest
  fastest-empty p [] e = refl
  fastest-empty p (c ∷ cs) e = absurd (ground arith)
