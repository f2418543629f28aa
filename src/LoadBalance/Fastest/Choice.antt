-- ===== src/LoadBalance/Fastest/Choice.antt =====
-- loadbalance/fastest/balancer.go: the pick after an update is a connection with the least of the
-- latest response times.
use eidola.Common.{
  ℕ, ◌≤◌, String, ◌≡◌, sym, ap, subst, ◌∙◌, ◌⊎◌, inl, inr, true, false, Option, none, some, List,
  map, arith, Option-cases, get_elem?, All,
}
use eidola.LoadBalance.Filter.{passes, picked, no_sub_conn_available}
use eidola.LoadBalance.Fastest.{
  Conn, Balancer, Sample, answered, fastest, update_all, pick, update_resp_time,
}
use eidola.LoadBalance.Fastest.Scan.{Fits, fastest-picks, fastest-none, fastest-empty}
use eidola.LoadBalance.Fastest.Update.{
  latest, updated, update_all-updated, Fits-updated, get_elem?-updated, rejected_before,
}

module _ {C A I : Type 0} where
  -- No connection of the balancer passes its filter.
  abbrev pub AllRejected : Balancer C A I → I → Type 0
  AllRejected b info = All (λ d. passes b.filter info d.address ≡ false) b.conns

  pick-none :
      (b : Balancer C A I) (info : I)
      → fastest (passes b.filter info) none b.conns ≡ none
      → pick b info ≡ no_sub_conn_available
  unfolding pick
  pick-none b info e = ground arith

  pick-some :
      (b : Balancer C A I) (info : I) (res : Conn C A)
      → fastest (passes b.filter info) none b.conns ≡ some res
      → pick b info ≡ picked res.sub_conn
  unfolding pick
  pick-some b info res e = ground (arith, fastest-empty (passes b.filter info) b.conns)

  module _ (addr : A → String) (parse_int : String → Option ℕ) where
    -- The connection passes the filter, and its latest response time, after the samples, is no more
    -- than that of any connection of the balancer that passes.
    abbrev pub IsFastest : Balancer C A I → List Sample → I → Conn C A → Type 0
    IsFastest b ss info r =
        ((i : ℕ) × (get_elem? b.conns i ≡ some r))
        × (passes b.filter info r.address ≡ true)
        × All
            (λ d.
              (passes b.filter info d.address ≡ false)
              ⊎ (latest addr parse_int r.address r.response ss
                  ≤ latest addr parse_int d.address d.response ss))
            b.conns

    update_resp_time-conns :
        (b b' : Balancer C A I) (ss : List Sample)
        → update_resp_time addr parse_int b (answered "success" ss) ≡ some b'
        → b' ≡ record b { conns = map (updated addr parse_int ss) b.conns }
    unfolding update_resp_time
    update_resp_time-conns b b' ss e = elim (Option-cases (update_all addr parse_int ss b.conns)) [
      | inl bad ↦ absurd (ground arith)
      | inr (cs', all) ↦
          let now : b' ≡ record b { conns = cs' } = ground arith in
          now
          ∙ ap (λ cs. record b { conns = cs })
              (update_all-updated addr parse_int ss b.conns cs' all)
    ]

    -- After an update with the samples of an answer, Pick returns a connection that passes the
    -- filter and whose latest response time is no more than that of any that passes; it is refused
    -- only if none passes.
    pub update-pick :
        (b b' : Balancer C A I) (ss : List Sample) (info : I)
        → update_resp_time addr parse_int b (answered "success" ss) ≡ some b'
        → ((pick b' info ≡ no_sub_conn_available) × AllRejected b info)
          ⊎ ((r : Conn C A) × ((pick b' info ≡ picked r.sub_conn) × IsFastest b ss info r))
    update-pick b b' ss info e =
        let p = passes b.filter info in
        let cs = map (updated addr parse_int ss) b.conns in
        let after : Balancer C A I = record b { conns = cs } in
        let now = ap (λ x. pick x info) (update_resp_time-conns b b' ss e) in
        elim (Option-cases (fastest p none cs)) [
          | inl refused ↦ inl (
            now ∙ pick-none after info refused,
            rejected_before addr parse_int p ss b.conns (fastest-none p cs refused),
          )
          | inr (res, found) ↦
              let (fits, (i, (at, pass))) = fastest-picks p cs res found in
              let (r, (old, new)) = get_elem?-updated addr parse_int ss b.conns i res at in
              inr (
                r,
                (
                  now ∙ pick-some after info res found ∙ ap (λ x. picked x.sub_conn) new,
                  (
                    (i, old),
                    ap (λ x. p x.address) (sym new) ∙ pass,
                    Fits-updated addr parse_int p (updated addr parse_int ss r).response ss b.conns
                        (subst (λ x. Fits p x.response cs) new fits),
                  ),
                ),
              )
        ]
