-- ===== src/LoadBalance/Examples.antt =====
-- loadbalance/: tests, and the theorems at concrete balancers. A connection and an address are
-- numbers, and a pick's information is one.
use eidola.Common.{
  ℕ, zero, suc, ◌%◌, ◌≤◌, String, ◌≡◌, refl, ◌⊎◌, Bool, true, false, not, Option, none, some, List,
  [], ◌∷◌, arith, ◌==◌, length, get_elem?, All, if◌then◌else◌, str_eq, ◌<◌,
}
use eidola.LoadBalance.Filter.{passes, picked, no_sub_conn_available}
use eidola.LoadBalance.RoundRobin
use eidola.LoadBalance.RoundRobin.Rotation
use eidola.LoadBalance.WeightRoundRobin
use eidola.LoadBalance.WeightRoundRobin.{WeightBalancer}
use eidola.LoadBalance.WeightRoundRobin.Credit
use eidola.LoadBalance.WeightRoundRobin.Pick
use eidola.LoadBalance.LeastActive
use eidola.LoadBalance.LeastActive.Choice
use eidola.LoadBalance.Fastest
use eidola.LoadBalance.Fastest.Choice as FastestChoice
use eidola.LoadBalance.Hash
use eidola.LoadBalance.Hash.{HashRing}

-- Addresses that are not the number of the pick's information.
abbrev other_than : Option (ℕ → ℕ → Bool)
other_than = some (λ info addr. not (info == addr))

abbrev three : List (ℕ × ℕ)
three = (10, 0) ∷ (11, 1) ∷ (12, 2) ∷ []

abbrev mixed : List ℕ
mixed = 1 ∷ 7 ∷ 0 ∷ 2 ∷ []

pick-rotates_example :
    (s : RoundRobin.SubConn ℕ ℕ) × (get_elem?
        (RoundRobin.candidates (RoundRobin.build other_than three) 1)
        (4 % length (RoundRobin.candidates (RoundRobin.build other_than three) 1))
      ≡ some s)
    × ((RoundRobin.pick (Rotation.after (RoundRobin.build other_than three) mixed) 1).1
        ≡ picked s.conn)
unfolding RoundRobin.candidates RoundRobin.build passes
pick-rotates_example = Rotation.pick-rotates other_than three mixed 1 (omega arith) (omega arith)

abbrev ready_three : RoundRobin.Balancer ℕ ℕ ℕ
ready_three = RoundRobin.build none three

third_pick : (RoundRobin.pick (Rotation.after ready_three (1 ∷ 7 ∷ [])) 1).1 ≡ picked 12
unfolding RoundRobin.pick RoundRobin.build passes
third_pick = refl

-- A balancer that has made 2^31 picks.
abbrev worn : RoundRobin.Balancer ℕ ℕ ℕ
worn = record {
  index = 2147483647;
  connections =
      record { conn = 10; addr = 0 }
      ∷ record { conn = 11; addr = 1 }
      ∷ record { conn = 12; addr = 2 }
      ∷ [];
  filter = none;
}

abbrev weighted : ℕ → ℕ → ℕ → WeightBalancer ℕ ℕ ℕ
weighted a b c = record {
  connections =
      record { c = 10; weight = 5; current_weight = a; efficient_weight = 5; addr = 0 }
      ∷ record { c = 11; weight = 1; current_weight = b; efficient_weight = 1; addr = 1 }
      ∷ record { c = 12; weight = 1; current_weight = c; efficient_weight = 1; addr = 2 }
      ∷ [];
  filter = none;
}

-- The balancer of weights 5, 1, 1 after three picks: the second connection owes 4.
three_picks :
    (WeightRoundRobin.pick
      (WeightRoundRobin.pick (WeightRoundRobin.pick (weighted 0 0 0) 7).0 7).0
      7).0
    ≡ weighted 1 4294967292 3
unfolding WeightRoundRobin.pick WeightRoundRobin.visit passes
three_picks = refl

fourth_pick : (WeightRoundRobin.pick (weighted 1 4294967292 3) 7).1 ≡ picked (1, 11)
unfolding WeightRoundRobin.pick WeightRoundRobin.visit passes
fourth_pick = refl

pick-heaviest_example :
    (r : WeightRoundRobin.WeightConn ℕ ℕ) × (get_elem?
        (WeightRoundRobin.scanned (weighted 0 0 0) 7).conns
        0
      ≡ some r)
    × (r.c ≡ 10)
    × (passes (weighted 0 0 0).filter 7 r.addr ≡ true)
    × All
        (λ d.
          (passes (weighted 0 0 0).filter 7 d.addr ≡ false) ⊎ (d.current_weight ≤ r.current_weight))
        (WeightRoundRobin.scanned (weighted 0 0 0) 7).conns
unfolding WeightRoundRobin.pick WeightRoundRobin.visit passes
pick-heaviest_example = Pick.pick-heaviest (weighted 0 0 0) 7 0 10 refl

pick-credit_example : Credit.credit (WeightRoundRobin.pick (weighted 0 0 0) 7).0.connections ≡ 0
unfolding WeightRoundRobin.pick WeightRoundRobin.visit passes
pick-credit_example = Pick.pick-credit (weighted 0 0 0) 7 0 10 (omega arith) refl

abbrev busy : LeastActive.Balancer ℕ ℕ ℕ
busy = record {
  connections =
      record { active = 3; conn = 10; address = 0 }
      ∷ record { active = 1; conn = 11; address = 1 }
      ∷ record { active = 0; conn = 12; address = 7 }
      ∷ [];
  filter = λ info addr. not (info == addr);
}

pick-least_example :
    (r : LeastActive.ActiveConn ℕ ℕ) × (get_elem? busy.connections 1 ≡ some r)
    × (r.conn ≡ 11)
    × (busy.filter 7 r.address ≡ true)
    × (r.active < LeastActive.max_u32)
    × Choice.Fits (busy.filter 7) r.active busy.connections
unfolding LeastActive.pick LeastActive.scan LeastActive.visit
pick-least_example = Choice.pick-least busy 7 1 11 refl

abbrev hashed : Hash.SimpleHashBalancer ℕ ℕ ℕ
hashed = record {
  conns =
      record { sub_conn = some 10; address = 0 } ∷ record { sub_conn = some 11; address = 1 } ∷ [];
  filter = none;
}

abbrev identity : ℕ → ℕ
identity n = n

abbrev node_name : ℕ → String
node_name zero = "a"
node_name (suc n) = "b"

-- A ring that answers the first of its nodes.
abbrev first_node : List String → HashRing
first_node [] key = none
first_node (n ∷ ns) key = some n

abbrev by_ring : Hash.ConsistentHashBalancer ℕ ℕ ℕ
by_ring = record { ring = none; conns = []; filter = none }

abbrev one_ready : List (ℕ × ℕ)
one_ready = (10, 3) ∷ []

abbrev built_ring : Hash.ConsistentHashBalancer ℕ ℕ ℕ
built_ring = Hash.build_consistent node_name first_node none one_ready

abbrev slow_first : Fastest.Balancer ℕ String ℕ
slow_first = record {
  conns =
      record { sub_conn = 10; address = "a"; response = 100000000 }
      ∷ record { sub_conn = 11; address = "b"; response = 100000000 }
      ∷ [];
  filter = none;
}

abbrev samples : List Fastest.Sample
samples = record { address = some "b"; value = some "7" } ∷ []

abbrev quick : Fastest.Balancer ℕ String ℕ
quick = record {
  conns =
      record { sub_conn = 10; address = "a"; response = 100000000 }
      ∷ record { sub_conn = 11; address = "b"; response = 7000000 }
      ∷ [];
  filter = none;
}

-- A ParseInt that reads one text.
abbrev seven : String → Option ℕ
seven text = if str_eq text "7" then some 7 else none

update-pick_example :
    ((Fastest.pick quick 0 ≡ no_sub_conn_available) × FastestChoice.AllRejected slow_first 0)
    ⊎ ((r : Fastest.Conn ℕ String) × ((Fastest.pick quick 0 ≡ picked r.sub_conn)
          × FastestChoice.IsFastest (λ a. a) seven slow_first samples 0 r))
unfolding Fastest.update_resp_time Fastest.update_all Fastest.update_sample Fastest.update_conns
    Fastest.update_one
update-pick_example = FastestChoice.update-pick (λ a. a) seven slow_first quick samples 0 refl

picks_quick : Fastest.pick quick 0 ≡ picked 11
unfolding Fastest.pick Fastest.fastest Fastest.faster passes
picks_quick = refl
