-- ===== src/LoadBalance/Fastest.antt =====
-- loadbalance/fastest/balancer.go. The answer of the query is an argument of updateRespTime, with
-- `value` the text at place 1 of Value, which panics if there is none, and strconv.ParseInt and the
-- field Addr of an address are parameters. The ticker that calls updateRespTime is not modelled.
pub mod Scan
pub mod Update
pub mod Choice
use eidola.Common.{
  ℕ, zero, suc, ◌+◌, ◌-◌, ◌*◌, ◌/◌, ◌%◌, ◌^◌, ◌≤◌, ◌<◌, min, String, ◌≡◌, refl, sym, ap, subst, ◌∙◌,
  ◌≢◌, ◌↔◌, ◌⊎◌, inl, inr, Bool, true, false, not, ◌&&◌, ◌||◌, Option, none, some, List, [], ◌∷◌,
  ◌++◌, map, arith, str_eq, eq_iff, eq_refl, ltb, leb, ◌==◌, if◌then◌else◌, ltb→lt, lt→ltb, leb→le,
  le→leb, Bool-cases, Option-cases, length, get_elem?, keep, any, All, length-append,
  length-keep-le, keep-append, get_elem?-some,
}
use eidola.LoadBalance.Filter.{Filter, passes, Outcome, picked, no_sub_conn_available}

pub record Conn (C A : Type 0) : Type 0 where
  pub sub_conn : C
  pub address : A
  pub response : ℕ

pub record Balancer (C A I : Type 0) : Type 0 where
  pub conns : List (Conn C A)
  pub filter : Filter I A

pub record Builder (A I : Type 0) : Type 0 where
  pub filter : Filter I A
  pub endpoint : String
  pub query : String
  pub interval : ℕ

-- One result: the address of its metric, if it has one, and its value.
pub record Sample : Type 0 where
  pub address : Option String
  pub value : Option String

-- What the query ends with.
pub data Answer : Type 0 where
  query_fails no_json : Answer
  answered : String → List Sample → Answer

abbrev pub millisecond : ℕ
millisecond = 1000000

module _ {C A : Type 0} where
  -- One round of the loop of Pick.
  unfoldable pub faster : (A → Bool) → Option (Conn C A) → Conn C A → Option (Conn C A)
  faster p none c = if not (p c.address) then none else some c
  faster p (some res) c =
      if not (p c.address)
      then some res
      else if ltb c.response res.response
      then some c
      else some res

  unfoldable pub fastest : (A → Bool) → Option (Conn C A) → List (Conn C A) → Option (Conn C A)
  fastest p res [] = res
  fastest p res (c ∷ cs) = fastest p (faster p res c) cs

module _ {C A : Type 0} (addr : A → String) (parse_int : String → Option ℕ) where
  -- The body of the loop over the connections; `none` is a panic.
  unfoldable pub update_one : String → Option String → Conn C A → Option (Conn C A)
  update_one address value c =
      if not (str_eq (addr c.address) address) then some c else elim value [
        | none ↦ none
        | some text ↦ elim (parse_int text) [
          | none ↦ some c
          | some ms ↦ some (record c { response = ms * millisecond })
        ]
      ]

  unfoldable pub update_conns : String → Option String → List (Conn C A) → Option (List (Conn C A))
  update_conns address value [] = some []
  update_conns address value (c ∷ cs) =
      let rest = update_conns address value cs in
      elim (update_one address value c) [
        | none ↦ none
        | some c' ↦ elim rest [ none ↦ none | some cs' ↦ some (c' ∷ cs') ]
      ]

  unfoldable pub update_sample : Sample → List (Conn C A) → Option (List (Conn C A))
  update_sample s cs = elim s.address [
    | none ↦ some cs
    | some address ↦ update_conns address s.value cs
  ]

  unfoldable pub update_all : List Sample → List (Conn C A) → Option (List (Conn C A))
  update_all [] cs = some cs
  update_all (s ∷ ss) cs = elim (update_sample s cs) [ none ↦ none | some cs' ↦ update_all ss cs' ]

module _ {C A I : Type 0} where
  unfoldable pub pick : Balancer C A I → I → Outcome C
  pick b info =
      if length b.conns == 0
      then no_sub_conn_available
      else elim (fastest (passes b.filter info) none b.conns) [
        | none ↦ no_sub_conn_available
        | some res ↦ picked res.sub_conn
      ]

  unfoldable pub build : Builder A I → List (C × A) → Balancer C A I
  build b ready = record {
    conns = map (λ e. record { sub_conn = e.0; address = e.1; response = millisecond * 100 }) ready;
    filter = b.filter;
  }

  unfoldable pub update_resp_time :
      (A → String) → (String → Option ℕ) → Balancer C A I → Answer → Option (Balancer C A I)
  update_resp_time addr parse_int b query_fails = some b
  update_resp_time addr parse_int b no_json = some b
  update_resp_time addr parse_int b (answered status result) =
      if not (str_eq status "success")
      then some b
      else elim (update_all addr parse_int result b.conns) [
        | none ↦ none
        | some cs ↦ some (record b { conns = cs })
      ]
