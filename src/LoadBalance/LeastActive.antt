-- ===== src/LoadBalance/LeastActive.antt =====
-- loadbalance/leastactive/balancer.go. The active counts are uint32; the pointer leastActiveConn is
-- a position in the list. Pick's loop and its increment are one step here: between them other
-- picks may run, which see the count as it was.
pub mod Choice
use eidola.Common.{
  ℕ, zero, suc, ◌+◌, ◌-◌, ◌*◌, ◌/◌, ◌%◌, ◌^◌, ◌≤◌, ◌<◌, min, String, ◌≡◌, refl, sym, ap, subst, ◌∙◌,
  ◌≢◌, ◌↔◌, ◌⊎◌, inl, inr, Bool, true, false, not, ◌&&◌, ◌||◌, Option, none, some, List, [], ◌∷◌,
  ◌++◌, map, arith, str_eq, eq_iff, eq_refl, ltb, leb, ◌==◌, if◌then◌else◌, ltb→lt, lt→ltb, leb→le,
  le→leb, Bool-cases, Option-cases, length, get_elem?, keep, any, All, length-append,
  length-keep-le, keep-append, get_elem?-some,
}
use eidola.Common.Word.{add_u32, u32_mod}
use eidola.LoadBalance.Filter.{Filter}

pub record ActiveConn (C A : Type 0) : Type 0 where
  pub active : ℕ
  pub conn : C
  pub address : A

pub record Balancer (C A I : Type 0) : Type 0 where
  pub connections : List (ActiveConn C A)
  pub filter : I → A → Bool

-- leastActiveCount, and leastActiveConn with its position or nil.
pub record Least (C A : Type 0) : Type 0 where
  pub count : ℕ
  pub conn : Option (ℕ × ActiveConn C A)

-- ^uint32(0)
abbrev pub max_u32 : ℕ
max_u32 = u32_mod - 1

pub data Result (C : Type 0) : Type 0 where
  picked : ℕ → C → Result C
  err_load_balance_available : Result C

-- Build: a nil filter is one that lets every address pass.
unfoldable pub always : {I A : Type 0} → Filter I A → I → A → Bool
always none info addr = true
always (some f) info addr = f info addr

module _ {C A : Type 0} where
  -- One round of the loop; `p` is the filter's test.
  unfoldable pub visit : (A → Bool) → ℕ → Least C A → ActiveConn C A → Least C A
  visit p i l c =
      if p c.address && ltb c.active l.count
      then record { count = c.active; conn = some (i, c) }
      else l

  unfoldable pub scan : (A → Bool) → ℕ → Least C A → List (ActiveConn C A) → Least C A
  scan p i l [] = l
  scan p i l (c ∷ cs) = scan p (suc i) (visit p i l c) cs

  -- atomic.AddUint32(&conn.active, delta) on the connection at a position.
  unfoldable pub add_active : ℕ → ℕ → List (ActiveConn C A) → List (ActiveConn C A)
  add_active i delta [] = []
  add_active zero delta (c ∷ cs) = record c { active = add_u32 c.active delta } ∷ cs
  add_active (suc i) delta (c ∷ cs) = c ∷ add_active i delta cs

  unfoldable pub bumped :
      Option (ℕ × ActiveConn C A) → List (ActiveConn C A) → List (ActiveConn C A)
  bumped none cs = cs
  bumped (some (i, c)) cs = add_active i 1 cs

  unfoldable pub returned : Option (ℕ × ActiveConn C A) → Result C
  returned none = err_load_balance_available
  returned (some (i, c)) = picked i c.conn

module _ {C A I : Type 0} where
  unfoldable pub least : Balancer C A I → I → Least C A
  least b info = scan (b.filter info) 0 (record { count = max_u32; conn = none }) b.connections

  unfoldable pub pick : Balancer C A I → I → Balancer C A I × Result C
  unfolding least bumped returned
  pick b info =
      let l = least b info in
      (record b { connections = bumped l.conn b.connections }, returned l.conn)

  -- Done of a pick at a position: the count falls by one, as `+ ^uint32(0)`.
  unfoldable pub done : Balancer C A I → ℕ → Balancer C A I
  done b i = record b { connections = add_active i max_u32 b.connections }

  unfoldable pub build : Filter I A → List (C × A) → Balancer C A I
  unfolding always
  build filter ready = record {
    connections = map (λ e. record { active = 0; conn = e.0; address = e.1 }) ready;
    filter = always filter;
  }
