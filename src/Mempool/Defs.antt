-- ===== src/Mempool/Defs.antt =====
-- internal/mempool/message_pool.go, MessagePool. An object is a number, and `next` is that of the next
-- one that the factory makes; `pool` has the objects in the sync.Pool, of which Get takes any, or a
-- new one: which is an argument. The factory and the function that resets an object are not modelled.
use eidola.Common.{
  ℕ, zero, suc, ◌+◌, ◌-◌, Bool, true, not, ◌&&◌, ◌||◌, Option, none, some, List, [], ◌∷◌, ltb, leb,
  ◌==◌, if◌then◌else◌, length, keep,
}
use eidola.Common.Int.{ℤ, pos, increment, decrement, positive}

pub record MessagePoolOptions : Type 0 where
  pub max_pool_size : ℕ
  pub cleanup_interval : ℕ
  pub ttl : ℕ
  pub prewarm_size : ℕ
  pub use_ref_counting : Bool
  pub reset_on_get : Bool

abbrev pub default_message_pool_options : MessagePoolOptions
default_message_pool_options = record {
  max_pool_size = 10000;
  cleanup_interval = 300000000000;
  ttl = 600000000000;
  prewarm_size = 10;
  use_ref_counting = true;
  reset_on_get = true;
}

pub record PooledObject : Type 0 where
  pub created_at : ℕ
  pub last_used : ℕ
  pub ref_count : ℤ

pub record MessagePoolStats : Type 0 where
  pub created : ℕ
  pub reused : ℕ
  pub destroyed : ℕ
  pub objects_in_pool : ℕ
  pub max_size : ℕ
  pub total_allocation : ℕ

pub record MessagePool : Type 0 where
  pub objects : List (ℕ × PooledObject)
  pub pool : List ℕ
  pub next : ℕ
  pub max_pool_size : ℕ
  pub ttl : ℕ
  pub use_ref_count : Bool
  pub stats : MessagePoolStats

-- The map of the objects.
unfoldable pub find : List (ℕ × PooledObject) → ℕ → Option PooledObject
find [] obj = none
find ((id, po) ∷ rest) obj = if id == obj then some po else find rest obj

unfoldable pub store : List (ℕ × PooledObject) → ℕ → PooledObject → List (ℕ × PooledObject)
store [] obj new = (obj, new) ∷ []
store ((id, po) ∷ rest) obj new =
    if id == obj then (obj, new) ∷ rest else (id, po) ∷ store rest obj new

unfoldable pub remove : List (ℕ × PooledObject) → ℕ → List (ℕ × PooledObject)
remove [] obj = []
remove ((id, po) ∷ rest) obj = if id == obj then rest else (id, po) ∷ remove rest obj

unfoldable pub take_out : List ℕ → ℕ → List ℕ
take_out [] obj = []
take_out (x ∷ xs) obj = if x == obj then xs else x ∷ take_out xs obj

-- New of the sync.Pool.
unfoldable pub create : MessagePool → ℕ → MessagePool
create p now = record p {
  objects =
      store p.objects p.next (record { created_at = now; last_used = now; ref_count = pos 1 });
  next = suc p.next;
  stats = record p.stats {
    created = suc p.stats.created;
    total_allocation = suc p.stats.total_allocation;
  };
}

-- The object that the sync.Pool gives: one of its own, or a new one.
unfoldable pub give : MessagePool → ℕ → Option ℕ → MessagePool × ℕ
unfolding create
give p now none = (create p now, p.next)
give p now (some obj) = (record p { pool = take_out p.pool obj }, obj)

unfoldable pub mark_used : MessagePool → ℕ → ℕ → MessagePool
mark_used p obj now = elim (find p.objects obj) [
  | none ↦ p
  | some po ↦ record p {
    objects =
        store p.objects obj (record po { last_used = now; ref_count = increment po.ref_count });
    stats = record p.stats { reused = suc p.stats.reused };
  }
]

unfoldable pub get : MessagePool → ℕ → Option ℕ → MessagePool × ℕ
get p now from =
    let g = give p now from in if p.use_ref_count then (mark_used g.0 g.1 now, g.1) else g

unfoldable pub counted : MessagePool → MessagePool
counted p = record p { stats = record p.stats { objects_in_pool = length p.objects } }

abbrev pub destroyed_one : MessagePoolStats → MessagePoolStats
destroyed_one s = record s { destroyed = suc s.destroyed }

-- Put of an object that the map has, with reference counts.
unfoldable pub release : MessagePool → ℕ → PooledObject → ℕ → MessagePool
unfolding counted
release p obj po now =
    let left = decrement po.ref_count in
    if positive left
    then counted (record p { objects = store p.objects obj (record po { ref_count = left }) })
    else if leb p.max_pool_size (length p.objects)
    then record p { objects = remove p.objects obj; stats = destroyed_one p.stats }
    else counted (record p {
      objects = store p.objects obj (record po { ref_count = left; last_used = now });
      pool = obj ∷ p.pool;
    })

-- Put of another, or without reference counts.
unfoldable pub take_back : MessagePool → ℕ → Option PooledObject → ℕ → MessagePool
unfolding counted
take_back p obj found now =
    if leb p.max_pool_size (length p.objects)
    then record p { stats = destroyed_one p.stats }
    else counted (record p {
      objects = store p.objects obj (elim found [
        | none ↦ record { created_at = now; last_used = now; ref_count = pos 0 }
        | some po ↦ record po { last_used = now }
      ]);
      pool = obj ∷ p.pool;
    })

-- Put of an object that is not nil.
unfoldable pub put : MessagePool → ℕ → ℕ → MessagePool
put p obj now = elim (find p.objects obj) [
  | none ↦ take_back p obj none now
  | some po ↦ if p.use_ref_count then release p obj po now else take_back p obj (some po) now
]

abbrev pub expired : MessagePool → ℕ → PooledObject → Bool
expired p now po =
    ltb 0 p.ttl
    && ltb p.ttl (now - po.last_used)
    && (not p.use_ref_count || not (positive po.ref_count))

unfoldable pub cleanup : MessagePool → ℕ → MessagePool
unfolding counted
cleanup p now =
    let left = keep (λ o. not (expired p now o.1)) p.objects in
    counted (record p {
      objects = left;
      stats = record p.stats { destroyed = p.stats.destroyed + (length p.objects - length left) };
    })

unfoldable pub prewarm : ℕ → MessagePool → ℕ → MessagePool
unfolding create put
prewarm zero p now = p
prewarm (suc n) p now = prewarm n (put (create p now) p.next now) now

unfoldable pub new_message_pool : MessagePoolOptions → ℕ → MessagePool
unfolding prewarm
new_message_pool options now =
    prewarm options.prewarm_size
      (record {
        objects = [];
        pool = [];
        next = 0;
        max_pool_size = options.max_pool_size;
        ttl = options.ttl;
        use_ref_count = options.use_ref_counting;
        stats = record {
          created = 0;
          reused = 0;
          destroyed = 0;
          objects_in_pool = 0;
          max_size = options.max_pool_size;
          total_allocation = 0;
        };
      })
      now

-- Close, once the cleanup has stopped.
unfoldable pub close : MessagePool → MessagePool
close p = record p { objects = [] }
