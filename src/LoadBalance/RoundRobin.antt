-- ===== src/LoadBalance/RoundRobin.antt =====
-- loadbalance/round_robin/balancer.go. The int32 index is kept as its bit pattern, a number below
-- 2^32; the number of candidates is below 2^31, as a slice of this size is in memory.
pub mod Rotation
use eidola.Common.{
  ℕ, zero, suc, ◌+◌, ◌-◌, ◌*◌, ◌/◌, ◌%◌, ◌^◌, ◌≤◌, ◌<◌, min, String, ◌≡◌, refl, sym, ap, subst, ◌∙◌,
  ◌≢◌, ◌↔◌, ◌⊎◌, inl, inr, Bool, true, false, not, ◌&&◌, ◌||◌, Option, none, some, List, [], ◌∷◌,
  ◌++◌, map, arith, str_eq, eq_iff, eq_refl, ltb, leb, ◌==◌, if◌then◌else◌, ltb→lt, lt→ltb, leb→le,
  le→leb, Bool-cases, Option-cases, length, get_elem?, keep, any, All, length-append,
  length-keep-le, keep-append, get_elem?-some,
}
use eidola.Common.Word.{add_u32, u32_mod}
use eidola.LoadBalance.Filter.{Filter, passes, Outcome, picked, no_sub_conn_available, panics}

abbrev pub i32_mod : ℕ
i32_mod = 2147483648

pub record SubConn (C A : Type 0) : Type 0 where
  pub conn : C
  pub addr : A

pub record Balancer (C A I : Type 0) : Type 0 where
  pub index : ℕ
  pub connections : List (SubConn C A)
  pub filter : Filter I A

-- `candidates[i]` and its connection, in range or not.
unfoldable pub chosen : {C A : Type 0} → Option (SubConn C A) → Outcome C
chosen none = panics
chosen (some c) = picked c.conn

-- `candidates[index % int32(len(candidates))]`: the remainder of a negative index is negative or 0,
-- and a negative position panics.
unfoldable pub at_remainder : {C A : Type 0} → List (SubConn C A) → ℕ → Outcome C
unfolding chosen
at_remainder cs index =
    if ltb index i32_mod
    then chosen (get_elem? cs (index % length cs))
    else if (u32_mod - index) % length cs == 0
    then chosen (get_elem? cs 0)
    else panics

module _ {C A I : Type 0} where
  unfoldable pub candidates : Balancer C A I → I → List (SubConn C A)
  candidates b info = keep (λ c. passes b.filter info c.addr) b.connections

  unfoldable pub pick : Balancer C A I → I → Balancer C A I × Outcome C
  unfolding candidates at_remainder
  pick b info =
      let cs = candidates b info in
      let index = add_u32 b.index 1 in
      if length cs == 0
      then (b, no_sub_conn_available)
      else (record b { index = index }, at_remainder cs index)

  -- Build: `ready` are the entries of info.ReadySCs in the order of the map's iteration.
  unfoldable pub build : Filter I A → List (C × A) → Balancer C A I
  build filter ready = record {
    index = u32_mod - 1;
    connections = map (λ e. record { conn = e.0; addr = e.1 }) ready;
    filter = filter;
  }
