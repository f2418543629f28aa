-- ===== src/LoadBalance/Hash.antt =====
-- loadbalance/hash/: the picker by a hash of the pick's information, and the one by a hash ring.
-- The hash (fnv over the printed information) and the ring (package hashring) are parameters.
pub mod Ring
use eidola.Common.{
  ℕ, zero, suc, ◌+◌, ◌-◌, ◌*◌, ◌/◌, ◌%◌, ◌^◌, ◌≤◌, ◌<◌, min, String, ◌≡◌, refl, sym, ap, subst, ◌∙◌,
  ◌≢◌, ◌↔◌, ◌⊎◌, inl, inr, Bool, true, false, not, ◌&&◌, ◌||◌, Option, none, some, List, [], ◌∷◌,
  ◌++◌, map, arith, str_eq, eq_iff, eq_refl, ltb, leb, ◌==◌, if◌then◌else◌, ltb→lt, lt→ltb, leb→le,
  le→leb, Bool-cases, Option-cases, length, get_elem?, keep, any, All, length-append,
  length-keep-le, keep-append, get_elem?-some,
}
use eidola.Common.Dict.{Dict, Entry, get, assign}
use eidola.LoadBalance.Filter.{Filter, passes, Outcome, picked, no_sub_conn_available, panics}

-- A nil SubConn is `none`.
pub record Conn (C A : Type 0) : Type 0 where
  pub sub_conn : Option C
  pub address : A

pub record SimpleHashBalancer (C A I : Type 0) : Type 0 where
  pub conns : List (Conn C A)
  pub filter : Filter I A

-- The ring is what its GetNode answers.
abbrev pub HashRing : Type 0
HashRing = String → Option String

pub record ConsistentHashBalancer (C A I : Type 0) : Type 0 where
  pub ring : Option HashRing
  pub conns : Dict (Conn C A)
  pub filter : Filter I A

module _ {C A : Type 0} where
  -- The loop of UpdateState over the addresses: each gets a Conn without a SubConn.
  unfoldable pub add_addresses : (A → String) → List A → Dict (Conn C A) → Dict (Conn C A)
  add_addresses key [] conns = conns
  add_addresses key (a ∷ as') conns =
      add_addresses key as' (assign conns (key a) (record { sub_conn = none; address = a }))

  unfoldable pub add_ready : (A → String) → List (C × A) → Dict (Conn C A) → Dict (Conn C A)
  add_ready key [] conns = conns
  add_ready key ((c, a) ∷ ready) conns =
      add_ready key ready (assign conns (key a) (record { sub_conn = some c; address = a }))

module _ {C A I : Type 0} where
  -- `b.filter != nil && !b.filter(info, conn.Address)`, or the connection.
  unfoldable pub filtered : Filter I A → I → Conn C A → Outcome (Option C)
  filtered filter info c =
      if passes filter info c.address then picked c.sub_conn else no_sub_conn_available

  unfoldable pub at_index : Filter I A → I → Option (Conn C A) → Outcome (Option C)
  unfolding filtered
  at_index filter info none = panics
  at_index filter info (some c) = filtered filter info c

  -- `hash info` is the 32-bit hash of the printed information.
  unfoldable pub pick_simple : (I → ℕ) → SimpleHashBalancer C A I → I → Outcome (Option C)
  unfolding at_index
  pick_simple hash b info =
      if length b.conns == 0
      then no_sub_conn_available
      else at_index b.filter info (get_elem? b.conns (hash info % length b.conns))

  unfoldable pub at_server : Filter I A → I → Option (Conn C A) → Outcome (Option C)
  unfolding filtered
  at_server filter info none = no_sub_conn_available
  at_server filter info (some c) = filtered filter info c

  unfoldable pub at_node : ConsistentHashBalancer C A I → I → Option String → Outcome (Option C)
  unfolding at_server
  at_node b info none = no_sub_conn_available
  at_node b info (some server) = at_server b.filter info (get b.conns server)

  unfoldable pub on_ring :
      ConsistentHashBalancer C A I → I → String → Option HashRing → Outcome (Option C)
  unfolding at_node
  on_ring b info key none = no_sub_conn_available
  on_ring b info key (some get_node) = at_node b info (get_node key)

  -- `method info` is info.FullMethodName.
  unfoldable pub pick_consistent :
      (I → String) → ConsistentHashBalancer C A I → I → Outcome (Option C)
  unfolding on_ring
  pick_consistent method b info = on_ring b info (method info) b.ring

  -- `key a` is addr.Addr, and `new_ring` is hashring.New.
  unfoldable pub update_state :
      (A → String)
      → (List String → HashRing)
      → ConsistentHashBalancer C A I
      → List A
      → ConsistentHashBalancer C A I
  unfolding add_addresses
  update_state key new_ring b addresses = record b {
    conns = add_addresses key addresses [];
    ring = some (new_ring (map key addresses));
  }

  -- Build: the ring is made of the keys of the map.
  unfoldable pub build_consistent :
      (A → String)
      → (List String → HashRing)
      → Filter I A
      → List (C × A)
      → ConsistentHashBalancer C A I
  unfolding add_ready
  build_consistent key new_ring filter ready =
      let conns = add_ready key ready [] in
      record {
        ring = some (new_ring (map (λ (e : Entry (Conn C A)). e.key) conns));
        conns = conns;
        filter = filter;
      }
