-- ===== src/Resolver/Changes.antt =====
-- resolver.go, hasServiceChanged and recordServices: when a recorded list counts as unchanged.
use eidola.Common.{
  suc, ◌+◌, ◌≤◌, String, ◌≡◌, refl, Bool, true, false, not, ◌&&◌, ◌||◌, List, [], ◌∷◌, arith,
  str_eq, eq_refl, ◌==◌, if◌then◌else◌, length, any,
}
use eidola.Common.Dict.{Dict, get, assign, get-assign}
use eidola.Resolver.Defs.{
  ServiceInstance, GrpcResolver, is_some, has_service_changed, add_services, record_services,
}

-- No address occurs twice.
abbrev pub distinct : List ServiceInstance → Bool
distinct [] = true
distinct (s ∷ ss) = not (any (λ t. str_eq s.address t.address) ss) && distinct ss

-- Some address is in the map already.
abbrev overlaps : Dict (Unit {0}) → List ServiceInstance → Bool
overlaps m ss = any (λ t. is_some (get m t.address)) ss

length-assign :
    (m : Dict (Unit {0})) (key : String)
    → length (assign m key tt) ≡ (if is_some (get m key) then length m else suc (length m))
unfolding assign get
length-assign [] key = refl
length-assign (e ∷ m) key = ground (arith, length-assign m key)

overlaps-assign :
    (m : Dict (Unit {0})) (key : String) (ss : List ServiceInstance)
    → overlaps (assign m key tt) ss ≡ (any (λ t. str_eq key t.address) ss || overlaps m ss)
overlaps-assign m key [] = refl
overlaps-assign m key (s ∷ ss) =
    ground (arith, get-assign m key tt s.address, overlaps-assign m key ss)

length-add_le :
    (m : Dict (Unit {0})) (ss : List ServiceInstance)
    → length (add_services m ss) ≤ length m + length ss
unfolding add_services
length-add_le m [] = omega arith
length-add_le m (s ∷ ss) =
    ground (arith, length-add_le (assign m s.address tt) ss, length-assign m s.address)

-- As many are added as there are, exactly if all are new and distinct.
length-add :
    (m : Dict (Unit {0})) (ss : List ServiceInstance)
    → (length m + length ss == length (add_services m ss)) ≡ (distinct ss && not (overlaps m ss))
unfolding add_services
length-add m [] = ground arith
length-add m (s ∷ ss) = ground (
  arith,
  length-add (assign m s.address tt) ss,
  length-add_le (assign m s.address tt) ss,
  length-assign m s.address,
  overlaps-assign m s.address ss,
)

known-add :
    (m : Dict (Unit {0})) (ss : List ServiceInstance) (a : String)
    → is_some (get m a) ≡ true
    → is_some (get (add_services m ss) a) ≡ true
unfolding add_services
known-add m [] a h = h
known-add m (s ∷ ss) a h =
    ground (arith, known-add (assign m s.address tt) ss a, get-assign m s.address tt a)

all_known :
    (m : Dict (Unit {0})) (ss : List ServiceInstance)
    → any (λ t. not (is_some (get (add_services m ss) t.address))) ss ≡ false
unfolding add_services
all_known m [] = refl
all_known m (s ∷ ss) = ground (
  arith,
  known-add (assign m s.address tt) ss s.address,
  get-assign m s.address tt s.address,
  eq_refl s.address,
  all_known (assign m s.address tt) ss,
)

none_overlaps : (ss : List ServiceInstance) → overlaps [] ss ≡ false
unfolding get
none_overlaps [] = refl
none_overlaps (s ∷ ss) = ground (arith, none_overlaps ss)

-- A list of services that has been recorded counts as changed exactly if an address occurs in it
-- twice.
pub has_service_changed-record :
    (r : GrpcResolver) (ss : List ServiceInstance)
    → has_service_changed (record_services r ss) ss ≡ not (distinct ss)
unfolding has_service_changed record_services
has_service_changed-record r ss =
    ground (arith, length-add [] ss, all_known [] ss, none_overlaps ss)
