-- ===== src/Mempool/Examples.antt =====
-- internal/mempool/message_pool.go on concrete inputs.
use eidola.Common.{◌≡◌, refl, none, some, [], ◌∷◌}
use eidola.Common.Int.{pos, positive, decrement, increment}
use eidola.Mempool.Defs.{
  MessagePool, default_message_pool_options, new_message_pool, find, get, put, cleanup, store,
  release, mark_used, give, take_out,
}
use eidola.Mempool.Reuse.{put-get}

abbrev one_warm : MessagePool
one_warm = new_message_pool (record default_message_pool_options { prewarm_size = 1 }) 5

put-get_example :
    ((put (get one_warm 6 none).0 (get one_warm 6 none).1 7).pool ≡ one_warm.pool)
    × (find
          (cleanup (put (get one_warm 6 none).0 (get one_warm 6 none).1 7) 900000000000).objects
          (get one_warm 6 none).1
        ≡ some (record { created_at = 6; last_used = 6; ref_count = pos 1 }))
unfolding new_message_pool find store release positive decrement
put-get_example = put-get one_warm 6 7 900000000000 refl

-- A warm object comes back into use.
warm_again : (put (get one_warm 6 (some 0)).0 0 7).pool ≡ 0 ∷ []
unfolding put get new_message_pool find store release positive decrement mark_used give increment
    take_out
warm_again = refl
