-- ===== src/Retry/Agreement.antt =====
-- internal/retry/backoff.go: the three loops of the retriers agree, and when they stop.
use eidola.Common.{
  ℕ, zero, suc, ◌+◌, ◌-◌, ◌≤◌, ◌<◌, ◌≡◌, ap, ◌⊎◌, inl, inr, Bool, true, false, Option, none, some,
  arith, length,
}
use native.Mathlib.Decide.{dec_lt}
use eidola.Retry.Retrier.{
  Retrier, Context, do_from, do_plain, with_context_from, do_with_context, listen_from,
  listenable_do,
}

module _ {E : Type 0} where
  context-agrees :
      (r : Retrier E) (ctx : Context E) (fn : ℕ → Option E) (left n : ℕ)
      → ((i : ℕ) → ctx.err i ≡ none)
      → ((i : ℕ) → ctx.done i ≡ none)
      → with_context_from r ctx fn left n ≡ do_from r fn left n
  unfolding with_context_from do_from
  context-agrees r ctx fn zero n live calm = ground (arith, live n)
  context-agrees r ctx fn (suc left) n live calm =
      ground (arith, live n, calm (suc n), context-agrees r ctx fn left (suc n) live calm)

  listen-agrees :
      (r : Retrier E) (before after : Bool) (fn : ℕ → Option E) (left n : ℕ)
      → (listen_from r before after fn left n).0 ≡ do_from r fn left n
  unfolding listen_from do_from
  listen-agrees r before after fn zero n = ground arith
  listen-agrees r before after fn (suc left) n =
      ground (arith, listen-agrees r before after fn left (suc n))

  -- With a context that is never done, DoWithContext does what Do does; so does the Do of a
  -- ListenableRetrier, whichever callbacks are set.
  pub retriers-agree :
      (r : Retrier E) (ctx : Context E) (before after : Bool) (fn : ℕ → Option E)
      → ((i : ℕ) → ctx.err i ≡ none)
      → ((i : ℕ) → ctx.done i ≡ none)
      → (do_with_context r ctx fn ≡ do_plain r fn)
        × ((listenable_do r before after fn).0 ≡ do_plain r fn)
  unfolding do_with_context listenable_do do_plain
  retriers-agree r ctx before after fn live calm = (
    context-agrees r ctx fn (r.max_attempts - 1) 0 live calm,
    listen-agrees r before after fn (r.max_attempts - 1) 0,
  )

  -- Call k succeeds, fails with an error that may not be retried, or is the last.
  abbrev pub Stops : Retrier E → (ℕ → Option E) → ℕ → Type 0
  Stops r fn k =
      (fn k ≡ none)
      ⊎ (((e : E) × ((fn k ≡ some e) × (r.retry_condition e ≡ false))) ⊎ (r.max_attempts ≤ suc k))

  do_from-Stops :
      (r : Retrier E) (fn : ℕ → Option E) (left n k : ℕ)
      → ((i : ℕ) → i < k → (e : E) × ((fn i ≡ some e) × (r.retry_condition e ≡ true)))
      → n ≤ k
      → k ≤ n + left
      → n + left ≡ r.max_attempts - 1
      → Stops r fn k
      → ((do_from r fn left n).error ≡ fn k)
        × ((do_from r fn left n).calls ≡ suc k)
        × (length (do_from r fn left n).waits ≡ k - n)
  unfolding do_from
  do_from-Stops r fn zero n k retries lo hi all stops =
      let here : n ≡ k = omega arith in (ap fn here, ap suc here, omega arith)
  do_from-Stops r fn (suc left) n k retries lo hi all stops = elim (dec_lt n k) [
    | yes lt ↦
        let (e, (fails, may)) = retries n lt in
        let rest =
          do_from-Stops r fn left (suc n) k retries (omega arith) (omega arith) (omega arith)
            stops in
        (ground arith, ground arith, ground arith)
    | no ge ↦
        let here : n ≡ k = omega arith in
        elim stops [
          | inl succeeds ↦ (ground arith, ground arith, ground arith)
          | inr (inl (e, (fails, may_not))) ↦ (ground arith, ground arith, ground arith)
          | inr (inr last) ↦ absurd (omega arith)
        ]
  ]

  -- If the calls before call k, which is at most the last, fail with errors that may be retried, and
  -- call k succeeds, fails with one that may not, or is the last, Do makes the calls up to it, waits
  -- before each but the first, and returns the answer of call k.
  pub do_plain-Stops :
      (r : Retrier E) (fn : ℕ → Option E) (k : ℕ)
      → ((i : ℕ) → i < k → (e : E) × ((fn i ≡ some e) × (r.retry_condition e ≡ true)))
      → k ≤ r.max_attempts - 1
      → Stops r fn k
      → ((do_plain r fn).error ≡ fn k)
        × ((do_plain r fn).calls ≡ suc k)
        × (length (do_plain r fn).waits ≡ k)
  unfolding do_plain
  do_plain-Stops r fn k retries le stops =
      let o =
        do_from-Stops r fn (r.max_attempts - 1) 0 k retries (omega arith) (omega arith)
          (omega arith) stops in
      (o.0, o.1, omega arith)
