-- ===== src/LoadBalance/WeightRoundRobin.antt =====
-- loadbalance/round_robin/weight_balancer.go. All weights are uint32; the pointer `res` is a
-- position in the list of connections. The mutex makes Pick one step.
pub mod Credit
pub mod Pick
use eidola.Common.{
  ℕ, zero, suc, ◌+◌, ◌-◌, ◌*◌, ◌/◌, ◌%◌, ◌^◌, ◌≤◌, ◌<◌, min, String, ◌≡◌, refl, sym, ap, subst, ◌∙◌,
  ◌≢◌, ◌↔◌, ◌⊎◌, inl, inr, Bool, true, false, not, ◌&&◌, ◌||◌, Option, none, some, List, [], ◌∷◌,
  ◌++◌, map, arith, str_eq, eq_iff, eq_refl, ltb, leb, ◌==◌, if◌then◌else◌, ltb→lt, lt→ltb, leb→le,
  le→leb, Bool-cases, Option-cases, length, get_elem?, keep, any, All, length-append,
  length-keep-le, keep-append, get_elem?-some,
}
use eidola.Common.Word.{add_u32, sub_u32, u32_mod}
use eidola.LoadBalance.Filter.{Filter, passes, Outcome, picked, no_sub_conn_available, panics}

pub record WeightConn (C A : Type 0) : Type 0 where
  pub c : C
  pub weight : ℕ
  pub current_weight : ℕ
  pub efficient_weight : ℕ
  pub addr : A

pub record WeightBalancer (C A I : Type 0) : Type 0 where
  pub connections : List (WeightConn C A)
  pub filter : Filter I A

-- `res`: its position and connection, or nil.
abbrev pub Best : Type 0 → Type 0 → Type 0
Best C A = Option (ℕ × WeightConn C A)

-- One round of the loop at position i, where `p` is the filter's test: the connection,
-- totalWeight and res after it.
pub record Round (C A : Type 0) : Type 0 where
  pub conn : WeightConn C A
  pub total : ℕ
  pub best : Best C A

-- What the loop leaves: the connections, totalWeight and res.
pub record Scan (C A : Type 0) : Type 0 where
  pub conns : List (WeightConn C A)
  pub total : ℕ
  pub best : Best C A

-- Done: the efficient weight falls by 1 on an error and grows by 1 otherwise, within uint32.
unfoldable pub done_weight : Bool → ℕ → ℕ
done_weight failed w =
    if (failed && w == 0) || (not failed && w == u32_mod - 1)
    then w
    else if failed
    then sub_u32 w 1
    else add_u32 w 1

module _ {C A : Type 0} where
  -- `if res == nil || res.currentWeight < c.currentWeight { res = c }`
  unfoldable pub better : Best C A → ℕ → WeightConn C A → Best C A
  better none i c = some (i, c)
  better (some (j, r)) i c =
      if ltb r.current_weight c.current_weight then some (i, c) else some (j, r)

  abbrev pub gain : WeightConn C A → WeightConn C A
  gain c = record c { current_weight = add_u32 c.current_weight c.efficient_weight }

  unfoldable pub visit : (A → Bool) → ℕ → ℕ → Best C A → WeightConn C A → Round C A
  unfolding better
  visit p i total best c =
      if p c.addr
      then record {
        conn = gain c;
        total = add_u32 total c.efficient_weight;
        best = better best i (gain c);
      }
      else record { conn = c; total = total; best = best }

  unfoldable pub scan : (A → Bool) → ℕ → ℕ → Best C A → List (WeightConn C A) → Scan C A
  scan p i total best [] = record { conns = []; total = total; best = best }
  scan p i total best (c ∷ cs) =
      let v = visit p i total best c in
      let rest = scan p (suc i) v.total v.best cs in record rest { conns = v.conn ∷ rest.conns }

  -- `res.currentWeight = res.currentWeight - totalWeight`
  unfoldable pub settle : ℕ → ℕ → List (WeightConn C A) → List (WeightConn C A)
  settle i total [] = []
  settle zero total (c ∷ cs) = record c { current_weight = sub_u32 c.current_weight total } ∷ cs
  settle (suc i) total (c ∷ cs) = c ∷ settle i total cs

  unfoldable pub pays : Best C A → Scan C A → List (WeightConn C A)
  unfolding settle
  pays none s = s.conns
  pays (some (i, c)) s = settle i s.total s.conns

  -- The connection that is returned, with the position that Done refers to.
  unfoldable pub returned : Best C A → Outcome (ℕ × C)
  returned none = no_sub_conn_available
  returned (some (i, c)) = picked (i, c.c)

  unfoldable pub done_at : ℕ → Bool → List (WeightConn C A) → List (WeightConn C A)
  unfolding done_weight
  done_at i failed [] = []
  done_at zero failed (c ∷ cs) =
      record c { efficient_weight = done_weight failed c.efficient_weight } ∷ cs
  done_at (suc i) failed (c ∷ cs) = c ∷ done_at i failed cs

module _ {C A I : Type 0} where
  unfoldable pub scanned : WeightBalancer C A I → I → Scan C A
  unfolding scan
  scanned w info = scan (passes w.filter info) 0 0 none w.connections

  unfoldable pub pick : WeightBalancer C A I → I → WeightBalancer C A I × Outcome (ℕ × C)
  unfolding scanned pays returned
  pick w info =
      let s = scanned w info in (record w { connections = pays s.best s }, returned s.best)

  unfoldable pub done : WeightBalancer C A I → ℕ → Bool → WeightBalancer C A I
  unfolding done_at
  done w i failed = record w { connections = done_at i failed w.connections }

  -- Build: an entry of info.ReadySCs is a connection, its weight attribute and its address.
  unfoldable pub build : Filter I A → List (C × ℕ × A) → WeightBalancer C A I
  build filter ready = record {
    connections =
        map
          (λ e. record {
            c = e.0;
            weight = e.1;
            current_weight = 0;
            efficient_weight = e.1;
            addr = e.2;
          })
          ready;
    filter = filter;
  }
