-- ===== src/LoadBalance/Fastest/Update.antt =====
-- loadbalance/fastest/balancer.go: the response times after updateRespTime.
-- latest response times.
use eidola.Common.{
  ℕ, zero, suc, ◌*◌, ◌≤◌, String, ◌≡◌, refl, ap, ◌∙◌, ◌⊎◌, inl, inr, Bool, false, not, Option, none,
  some, List, [], ◌∷◌, map, arith, str_eq, if◌then◌else◌, Option-cases, get_elem?, All,
}
use eidola.LoadBalance.Fastest.{
  Conn, Sample, millisecond, update_one, update_conns, update_sample, update_all,
}
use eidola.LoadBalance.Fastest.Scan.{Fits}

module _ {A : Type 0} (addr : A → String) (parse_int : String → Option ℕ) where
  -- The response time after one sample, and after all: the last value for the address that is a
  -- number.
  unfoldable pub reading : A → ℕ → Sample → ℕ
  reading a now s = elim s.address [
    | none ↦ now
    | some address ↦ if not (str_eq (addr a) address) then now else elim s.value [
      | none ↦ now
      | some text ↦ elim (parse_int text) [ none ↦ now | some ms ↦ ms * millisecond ]
    ]
  ]

  unfoldable pub latest : A → ℕ → List Sample → ℕ
  latest a now [] = now
  latest a now (s ∷ ss) = latest a (reading a now s) ss

module _ {C A : Type 0} (addr : A → String) (parse_int : String → Option ℕ) where
  abbrev pub updated : List Sample → Conn C A → Conn C A
  updated ss c = record c { response = latest addr parse_int c.address c.response ss }

  update_one-updated :
      (address : String) (value : Option String) (c c' : Conn C A)
      → update_one addr parse_int address value c ≡ some c'
      → c' ≡ updated (record { address = some address; value = value } ∷ []) c
  unfolding update_one latest reading
  update_one-updated address none c c' e = ground arith
  update_one-updated address (some text) c c' e = ground arith

  update_conns-updated :
      (address : String) (value : Option String) (cs cs' : List (Conn C A))
      → update_conns addr parse_int address value cs ≡ some cs'
      → cs' ≡ map (updated (record { address = some address; value = value } ∷ [])) cs
  unfolding update_conns
  update_conns-updated address value [] cs' e = ground arith
  update_conns-updated address value (c ∷ cs) cs' e =
      elim (Option-cases (update_one addr parse_int address value c)) [
        | inl bad ↦ absurd (ground arith)
        | inr (c', one) ↦ elim (Option-cases (update_conns addr parse_int address value cs)) [
          | inl bad ↦ absurd (ground arith)
          | inr (rest, two) ↦
              let head = update_one-updated address value c c' one in
              let tail = update_conns-updated address value cs rest two in
              let whole : cs' ≡ c' ∷ rest = ground arith in
              whole
              ∙ ap (λ x. x ∷ rest) head
              ∙ ap (λ xs. updated (record { address = some address; value = value } ∷ []) c ∷ xs)
                  tail
        ]
      ]

  map-same : (cs : List (Conn C A)) → cs ≡ map (λ c. c) cs
  map-same [] = refl
  map-same (c ∷ cs) = ap (λ xs. c ∷ xs) (map-same cs)

  sample_fields :
      (address value : Option String) (cs cs' : List (Conn C A))
      → update_sample addr parse_int (record { address = address; value = value }) cs ≡ some cs'
      → cs' ≡ map (updated (record { address = address; value = value } ∷ [])) cs
  unfolding update_sample latest reading
  sample_fields none value cs cs' e = let same : cs' ≡ cs = ground arith in same ∙ map-same cs
  sample_fields (some address) value cs cs' e = update_conns-updated address value cs cs' e

  update_sample-updated :
      (s : Sample) (cs cs' : List (Conn C A))
      → update_sample addr parse_int s cs ≡ some cs'
      → cs' ≡ map (updated (s ∷ [])) cs
  update_sample-updated s = sample_fields s.address s.value

  map-map :
      (s : Sample) (ss : List Sample) (cs : List (Conn C A))
      → map (updated ss) (map (updated (s ∷ [])) cs) ≡ map (updated (s ∷ ss)) cs
  unfolding latest
  map-map s ss [] = refl
  map-map s ss (c ∷ cs) = ap (λ xs. updated (s ∷ ss) c ∷ xs) (map-map s ss cs)

  pub update_all-updated :
      (ss : List Sample) (cs cs' : List (Conn C A))
      → update_all addr parse_int ss cs ≡ some cs'
      → cs' ≡ map (updated ss) cs
  unfolding update_all latest
  update_all-updated [] cs cs' e = let same : cs' ≡ cs = ground arith in same ∙ map-same cs
  update_all-updated (s ∷ ss) cs cs' e = elim (Option-cases (update_sample addr parse_int s cs)) [
    | inl bad ↦ absurd (ground arith)
    | inr (mid, one) ↦
        update_all-updated ss mid cs' (ground arith)
        ∙ ap (map (updated ss)) (update_sample-updated s cs mid one)
        ∙ map-map s ss cs
  ]

  pub Fits-updated :
      (p : A → Bool) (bound : ℕ) (ss : List Sample) (cs : List (Conn C A))
      → Fits p bound (map (updated ss) cs)
      → All
          (λ d. (p d.address ≡ false) ⊎ (bound ≤ latest addr parse_int d.address d.response ss))
          cs
  Fits-updated p bound ss [] fits = tt
  Fits-updated p bound ss (c ∷ cs) fits = (fits.0, Fits-updated p bound ss cs fits.1)

  pub get_elem?-updated :
      (ss : List Sample) (cs : List (Conn C A)) (i : ℕ) (r' : Conn C A)
      → get_elem? (map (updated ss) cs) i ≡ some r'
      → (r : Conn C A) × ((get_elem? cs i ≡ some r) × (r' ≡ updated ss r))
  get_elem?-updated ss [] i r' e = absurd (ground arith)
  get_elem?-updated ss (c ∷ cs) zero r' e = (c, (refl, ground arith))
  get_elem?-updated ss (c ∷ cs) (suc i) r' e = get_elem?-updated ss cs i r' e

  pub rejected_before :
      (p : A → Bool) (ss : List Sample) (cs : List (Conn C A))
      → All (λ d. p d.address ≡ false) (map (updated ss) cs)
      → All (λ d. p d.address ≡ false) cs
  rejected_before p ss [] none_passes = tt
  rejected_before p ss (c ∷ cs) none_passes = (none_passes.0, rejected_before p ss cs none_passes.1)
