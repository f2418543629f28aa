-- ===== src/Plugin/Order.antt =====
-- plugin/plugin.go: what Init has initialised, and what Close closes.
use eidola.Common.{String, ◌≡◌, refl, false, none, some, List, [], ◌∷◌, ◌++◌, map, arith, All}
use mathlib.Core.List.{reverse, reverse-cons}
use eidola.Common.Dict.{Dict, Entry, get}
use eidola.Plugin.Defs.{Plugin, Manager, init_entries, init, close_names, close, init_failed}

module _ {E O I : Type 0} where
  -- The entries stand in the map: a range visits no others.
  abbrev pub Stands : Dict (Plugin E O I) → List (Entry (Plugin E O I)) → Type 0
  Stands plugins order = All (λ e. get plugins e.key ≡ some e.value) order

  abbrev pub keys : List (Entry (Plugin E O I)) → List String
  keys order = map (λ e. e.key) order

  abbrev pub values : List (Entry (Plugin E O I)) → List (Plugin E O I)
  values order = map (λ e. e.value) order

  init_entries-all :
      (order : List (Entry (Plugin E O I)))
      → (init_entries order).1 ≡ none
      → (init_entries order).0 ≡ keys order
  unfolding init_entries
  init_entries-all [] h = refl
  init_entries-all (e ∷ es) h = ground (arith, init_entries-all es)

  close_names-append :
      (plugins : Dict (Plugin E O I)) (xs ys : List String)
      → (close_names plugins (xs ++ ys)).0
        ≡ (close_names plugins xs).0 ++ (close_names plugins ys).0
  unfolding close_names
  close_names-append plugins [] ys = refl
  close_names-append plugins (x ∷ xs) ys = ground (arith, close_names-append plugins xs ys)

  close_one :
      (plugins : Dict (Plugin E O I)) (name : String) (p : Plugin E O I)
      → get plugins name ≡ some p
      → (close_names plugins (name ∷ [])).0 ≡ p ∷ []
  unfolding close_names
  close_one plugins name p h = ground arith

  close_names-reverse :
      (plugins : Dict (Plugin E O I)) (order : List (Entry (Plugin E O I)))
      → Stands plugins order
      → (close_names plugins (reverse (keys order))).0 ≡ reverse (values order)
  unfolding close_names
  close_names-reverse plugins [] h = refl
  close_names-reverse plugins (e ∷ es) h = rw (
    reverse-cons,
    reverse-cons,
    close_names-append plugins (reverse (keys es)) (e.key ∷ []),
    close_names-reverse plugins es h.1,
    close_one plugins e.key e.value h.0,
  )

  -- A manager that has not been initialised, whose Init then succeeds: Close calls Close of all the
  -- plugins that it visited, each once, in the reverse order, and is then ready for another Init.
  pub close-init :
      (m : Manager E O I) (order : List (Entry (Plugin E O I)))
      → m.init_complete ≡ false
      → m.init_order ≡ []
      → Stands m.plugins order
      → (init m order).1 ≡ none
      → ((close (init m order).0).2 ≡ reverse (values order)) × ((close (init m order).0).0 ≡ m)
  unfolding init close
  close-init m order i o s h =
      ground (arith, init_entries-all order, close_names-reverse m.plugins order s)

  -- If Init fails, Close closes nothing, also of the plugins that Init had initialised.
  close-init_failed :
      (m : Manager E O I) (order : List (Entry (Plugin E O I))) (name : String) (e : E)
      → (init m order).1 ≡ some (init_failed name e)
      → close (init m order).0 ≡ ((init m order).0, none, [])
  unfolding init close
  close-init_failed m order name e h = ground arith
