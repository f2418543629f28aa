-- ===== src/Mempool/Reuse.antt =====
-- internal/mempool/message_pool.go: which objects come back into use.
use eidola.Common.{
  ℕ, ◌≡◌, refl, ap, ◌∙◌, true, false, not, none, some, List, [], ◌∷◌, arith, ◌==◌, if◌then◌else◌,
  keep,
}
use eidola.Common.Int.{pos, increment, decrement, positive}
use eidola.Mempool.Defs.{
  PooledObject, MessagePool, find, store, create, give, mark_used, get, counted, release, put,
  expired, cleanup,
}

find-store :
    (m : List (ℕ × PooledObject)) (obj : ℕ) (po : PooledObject) (at : ℕ)
    → find (store m obj po) at ≡ (if obj == at then some po else find m at)
unfolding find store
find-store [] obj po at = refl
find-store ((id, old) ∷ rest) obj po at = ground (arith, find-store rest obj po at)

-- What cleanup keeps: an object that has not expired is still found.
find-keep :
    (p : MessagePool) (m : List (ℕ × PooledObject)) (now obj : ℕ) (po : PooledObject)
    → find m obj ≡ some po
    → expired p now po ≡ false
    → find (keep (λ o. not (expired p now o.1)) m) obj ≡ some po
unfolding find
find-keep p [] now obj po h e = absurd (ground arith)
find-keep p ((id, old) ∷ rest) now obj po h e = ground (arith, find-keep p rest now obj po)

abbrev used_by : ℕ → ℕ → PooledObject
used_by n now = record { created_at = now; last_used = now; ref_count = pos n }

get_new :
    (p : MessagePool) (now : ℕ)
    → p.use_ref_count ≡ true
    → (find (get p now none).0.objects p.next ≡ some (used_by 2 now))
      × ((get p now none).0.pool ≡ p.pool)
      × ((get p now none).0.use_ref_count ≡ true)
      × ((get p now none).1 ≡ p.next)
unfolding get give create mark_used increment
get_new p now h =
    let made = store p.objects p.next (used_by 1 now) in
    let a = find-store p.objects p.next (used_by 1 now) p.next in
    let b = find-store made p.next (used_by 2 now) p.next in
    (ground (arith, a, b), ground arith, ground arith, ground arith)

put_used :
    (p : MessagePool) (obj now later : ℕ)
    → find p.objects obj ≡ some (used_by 2 now)
    → p.use_ref_count ≡ true
    → put p obj later ≡ counted (record p { objects = store p.objects obj (used_by 1 now) })
unfolding put release decrement positive
put_used p obj now later h r = ground arith

find-cleanup :
    (p : MessagePool) (obj now later : ℕ)
    → find p.objects obj ≡ some (used_by 1 now)
    → p.use_ref_count ≡ true
    → find (cleanup p later).objects obj ≡ some (used_by 1 now)
unfolding cleanup counted positive
find-cleanup p obj now later h r = find-keep p p.objects later obj (used_by 1 now) h (ground arith)

-- With reference counts, Put of a new object that Get has made does not return it to the pool: its
-- count is still one, since making it counts as a use too. A cleanup right after, however much later,
-- keeps it among the objects.
pub put-get :
    (p : MessagePool) (now later much_later : ℕ)
    → p.use_ref_count ≡ true
    → ((put (get p now none).0 (get p now none).1 later).pool ≡ p.pool)
      × (find
            (cleanup (put (get p now none).0 (get p now none).1 later) much_later).objects
            (get p now none).1
          ≡ some (record { created_at = now; last_used = now; ref_count = pos 1 }))
unfolding counted
put-get p now later much_later h =
    let g = get p now none in
    let (found, same, refs, id) = get_new p now h in
    let at : find g.0.objects g.1 ≡ some (used_by 2 now) = ap (find g.0.objects) id ∙ found in
    let after = put_used g.0 g.1 now later at refs in
    let q = counted (record g.0 { objects = store g.0.objects g.1 (used_by 1 now) }) in
    let kept = find-store g.0.objects g.1 (used_by 1 now) g.1 in
    let stored : find q.objects g.1 ≡ some (used_by 1 now) = ground (arith, kept) in
    (
      ap (λ x. x.pool) after ∙ same,
      ap (λ x. find (cleanup x much_later).objects g.1) after
          ∙ find-cleanup q g.1 now much_later stored refs,
    )
