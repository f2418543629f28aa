-- ===== src/LoadBalance/Hash/Ring.antt =====
-- loadbalance/hash/: what the pickers return before and after the addresses are updated.
use eidola.Common.{
  ℕ, ◌%◌, String, ◌≡◌, refl, sym, ◌∙◌, ◌⊎◌, inl, inr, none, some, List, [], ◌∷◌, map, arith, str_eq,
  ◌==◌, Bool-cases, Option-cases, length, get_elem?, get_elem?-some,
}
use eidola.Common.Dict.{Dict, Entry, get, assign, get-assign}
use eidola.LoadBalance.Filter.{Filter, passes, picked, no_sub_conn_available}
use eidola.LoadBalance.Hash.{
  Conn, SimpleHashBalancer, HashRing, ConsistentHashBalancer, pick_simple, pick_consistent,
  add_addresses, update_state, add_ready, build_consistent, filtered,
}

module _ {C A : Type 0} where
  -- No connection of the map has a SubConn.
  abbrev pub Bare : Dict (Conn C A) → Type 0
  Bare m = (k : String) (c : Conn C A) → get m k ≡ some c → c.sub_conn ≡ none

  empty-Bare : Bare []
  unfolding get
  empty-Bare k c e = cc

  assign-Bare :
      (k : String) (a : A) (m : Dict (Conn C A))
      → Bare m
      → Bare (assign m k (record { sub_conn = none; address = a }))
  assign-Bare k a m bare j c e =
      ground (arith, get-assign m k (record { sub_conn = none; address = a }) j, bare j c)

  add_addresses-Bare :
      (key : A → String) (as' : List A) (m : Dict (Conn C A))
      → Bare m
      → Bare (add_addresses key as' m)
  unfolding add_addresses
  add_addresses-Bare key [] m bare = bare
  add_addresses-Bare key (a ∷ as') m bare =
      add_addresses-Bare key as' _ (assign-Bare (key a) a m bare)

  -- Every connection of the map has a SubConn.
  abbrev pub Usable : Dict (Conn C A) → Type 0
  Usable m = (k : String) (c : Conn C A) → get m k ≡ some c → (s : C) × (c.sub_conn ≡ some s)

  empty-Usable : Usable []
  unfolding get
  empty-Usable k c e = cc

  assign-Usable :
      (k : String) (s : C) (a : A) (m : Dict (Conn C A))
      → Usable m
      → Usable (assign m k (record { sub_conn = some s; address = a }))
  assign-Usable k s a m usable j d e =
      let new : Conn C A = record { sub_conn = some s; address = a } in
      let read = sym (get-assign m k new j) ∙ e in
      elim (Bool-cases (str_eq k j)) [
        | inl same ↦ (s, ground arith)
        | inr differs ↦ usable j d (rw differs at read)
      ]

  add_ready-Usable :
      (key : A → String) (ready : List (C × A)) (m : Dict (Conn C A))
      → Usable m
      → Usable (add_ready key ready m)
  unfolding add_ready
  add_ready-Usable key [] m usable = usable
  add_ready-Usable key ((c, a) ∷ ready) m usable =
      add_ready-Usable key ready _ (assign-Usable (key a) c a m usable)

module _ {C A I : Type 0} where
  -- The picker by a plain hash never panics: it picks the connection at the hash modulo the number
  -- of connections, or reports that none is available if there is none or the filter refuses it.
  pick_simple-total :
      (hash : I → ℕ) (b : SimpleHashBalancer C A I) (info : I)
      → ((b.conns ≡ []) × (pick_simple hash b info ≡ no_sub_conn_available))
        ⊎ ((c : Conn C A) × (get_elem? b.conns (hash info % length b.conns) ≡ some c)
            × (pick_simple hash b info ≡ filtered b.filter info c))
  unfolding pick_simple
  pick_simple-total hash b info = elim (Bool-cases (length b.conns == 0)) [
    | inl empty ↦ inl (ground arith, ground arith)
    | inr some' ↦
        let (c, found) = get_elem?-some b.conns (hash info % length b.conns) (ground arith) in
        inr (c, found, ground arith)
  ]

  -- After UpdateState no pick returns a usable connection: each is refused, or returns a nil SubConn,
  -- whatever the ring answers.
  update_state-nil :
      (method : I → String) (key : A → String) (new_ring : List String → HashRing)
      (b : ConsistentHashBalancer C A I) (addresses : List A) (info : I)
      → (pick_consistent method (update_state key new_ring b addresses) info
          ≡ no_sub_conn_available)
        ⊎ (pick_consistent method (update_state key new_ring b addresses) info ≡ picked none)
  unfolding pick_consistent update_state
  update_state-nil method key new_ring b addresses info =
      elim (Option-cases (new_ring (map key addresses) (method info))) [
        | inl missing ↦ inl (rw missing refl)
        | inr (server, found) ↦
            elim (Option-cases (get (add_addresses {C = C} key addresses []) server)) [
              | inl unknown ↦ inl (rw (found, unknown) refl)
              | inr (c, known) ↦
                  let bare =
                    add_addresses-Bare key addresses [] (empty-Bare {C = C} {A = A}) server c
                      known in
                  rw (found, known) (ground arith)
            ]
      ]

  -- A pick of a balancer that Build has made is refused, or returns a usable connection.
  build_consistent-some :
      (method : I → String) (key : A → String) (new_ring : List String → HashRing)
      (filter : Filter I A) (ready : List (C × A)) (info : I)
      → (pick_consistent method (build_consistent key new_ring filter ready) info
          ≡ no_sub_conn_available)
        ⊎ ((c : C) × (pick_consistent method (build_consistent key new_ring filter ready) info
              ≡ picked (some c)))
  unfolding pick_consistent build_consistent
  build_consistent-some method key new_ring filter ready info =
      let conns = add_ready key ready [] in
      elim (Option-cases (new_ring (map (λ (e : Entry (Conn C A)). e.key) conns) (method info))) [
        | inl missing ↦ inl (rw missing refl)
        | inr (server, found) ↦ elim (Option-cases (get conns server)) [
          | inl unknown ↦ inl (rw (found, unknown) refl)
          | inr (c, known) ↦
              let (live, is) =
                add_ready-Usable key ready [] (empty-Usable {C = C} {A = A}) server c known in
              elim (Bool-cases (passes filter info c.address)) [
                | inl pass ↦ inr (live, rw (found, known, pass, is))
                | inr refused ↦ inl (rw (found, known, refused))
              ]
        ]
      ]
