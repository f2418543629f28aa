-- ===== src/Retry/Retrier.antt =====
-- internal/retry/backoff.go, Retrier and ListenableRetrier. The function that is repeated, the
-- context and the back-off strategy, which is asked once for each wait, are given by their answers
-- by number: those of the function from 0, as in the source those of the strategy from 1.
use eidola.Common.{ℕ, zero, suc, ◌-◌, Bool, not, Option, none, some, List, [], ◌∷◌, if◌then◌else◌}

pub record Retrier (E : Type 0) : Type 0 where
  pub max_attempts : ℕ
  pub next_backoff : ℕ → ℕ
  pub retry_condition : E → Bool

-- What Do returns, how often it calls the function, and the times that it waits for.
pub record Result (E : Type 0) : Type 0 where
  pub error : Option E
  pub calls : ℕ
  pub waits : List ℕ

-- `err` is what Err of the context answers before a call, and `done` that it is done in the wait
-- before one.
pub record Context (E : Type 0) : Type 0 where
  pub err : ℕ → Option E
  pub done : ℕ → Option E

-- The calls of the callbacks of ListenableRetrier, in order.
pub data Event (E : Type 0) : Type 0 where
  before_retry after_retry : ℕ → E → Event E

module _ {E : Type 0} where
  abbrev pub ended : Option E → ℕ → Result E
  ended e n = record { error = e; calls = n; waits = [] }

  abbrev pub after_wait : ℕ → Result E → Result E
  after_wait backoff o = record o { waits = backoff ∷ o.waits }

  -- The loop of Do from call n on, where `left` calls may follow it.
  unfoldable pub do_from : Retrier E → (ℕ → Option E) → ℕ → ℕ → Result E
  do_from r fn zero n = ended (fn n) (suc n)
  do_from r fn (suc left) n =
      let rest = do_from r fn left (suc n) in
      elim (fn n) [
        | none ↦ ended none (suc n)
        | some e ↦
            if not (r.retry_condition e)
            then ended (some e) (suc n)
            else after_wait (r.next_backoff (suc n)) rest
      ]

  unfoldable pub do_plain : Retrier E → (ℕ → Option E) → Result E
  do_plain r fn = do_from r fn (r.max_attempts - 1) 0

  unfoldable pub with_context_from : Retrier E → Context E → (ℕ → Option E) → ℕ → ℕ → Result E
  with_context_from r ctx fn zero n = elim (ctx.err n) [
    | some e ↦ ended (some e) n
    | none ↦ ended (fn n) (suc n)
  ]
  with_context_from r ctx fn (suc left) n =
      let rest = with_context_from r ctx fn left (suc n) in
      elim (ctx.err n) [
        | some e ↦ ended (some e) n
        | none ↦ elim (fn n) [
          | none ↦ ended none (suc n)
          | some e ↦
              if not (r.retry_condition e)
              then ended (some e) (suc n)
              else elim (ctx.done (suc n)) [
                | some c ↦ after_wait (r.next_backoff (suc n)) (ended (some c) (suc n))
                | none ↦ after_wait (r.next_backoff (suc n)) rest
              ]
        ]
      ]

  unfoldable pub do_with_context : Retrier E → Context E → (ℕ → Option E) → Result E
  do_with_context r ctx fn = with_context_from r ctx fn (r.max_attempts - 1) 0

  abbrev pub note : Bool → Event E → List (Event E) → List (Event E)
  note set e events = if set then e ∷ events else events

  -- Do of ListenableRetrier, from the call of the function in a round: `before` and `after` say which
  -- callbacks are set.
  unfoldable pub listen_from :
      Retrier E → Bool → Bool → (ℕ → Option E) → ℕ → ℕ → Result E × List (Event E)
  listen_from r before after fn zero n = elim (fn n) [
    | none ↦ (ended none (suc n), [])
    | some e ↦ (ended (some e) (suc n), note after (after_retry n e) [])
  ]
  listen_from r before after fn (suc left) n =
      let rest = listen_from r before after fn left (suc n) in
      elim (fn n) [
        | none ↦ (ended none (suc n), [])
        | some e ↦
            if not (r.retry_condition e)
            then (ended (some e) (suc n), note after (after_retry n e) [])
            else (
              after_wait (r.next_backoff (suc n)) rest.0,
              note after (after_retry n e) (note before (before_retry (suc n) e) rest.1),
            )
      ]

  unfoldable pub listenable_do :
      Retrier E → Bool → Bool → (ℕ → Option E) → Result E × List (Event E)
  listenable_do r before after fn = listen_from r before after fn (r.max_attempts - 1) 0
