-- ===== src/Plugin/Examples.antt =====
-- plugin/plugin.go: tests, and the theorems at a manager with two plugins.
use eidola.Common.{ℕ, ◌≡◌, refl, false, none, some, List, [], ◌∷◌, ◌++◌}
use eidola.Common.Dict.{Entry, get, assign}
use eidola.Plugin.Defs.{
  Plugin, Manager, new_manager, register, init, init_entries, init_failed, close,
  apply_client_plugins, modify_all,
}
use eidola.Plugin.Order.{Stands, close-init}

abbrev metrics : Plugin ℕ ℕ ℕ
metrics = record {
  name = "metrics";
  init = none;
  close = none;
  register_with_server = some none;
  modify_client_options = some (λ opts. opts ++ 7 ∷ []);
  interceptors = none;
  hooks = none;
}

abbrev tracing : Plugin ℕ ℕ ℕ
tracing = record metrics { name = "tracing"; modify_client_options = none }

abbrev broken : Plugin ℕ ℕ ℕ
broken = record metrics { name = "broken"; init = some 3 }

abbrev entry : Plugin ℕ ℕ ℕ → Entry (Plugin ℕ ℕ ℕ)
entry p = record { key = p.name; value = p }

abbrev manager : Manager ℕ ℕ ℕ
manager = record {
  plugins = entry metrics ∷ entry tracing ∷ entry broken ∷ [];
  init_order = [];
  init_complete = false;
}

-- The order of a range differs from that of the list.
abbrev order : List (Entry (Plugin ℕ ℕ ℕ))
order = entry tracing ∷ entry metrics ∷ []

registered :
    (register (register new_manager metrics).0 tracing).0.plugins
    ≡ entry metrics ∷ entry tracing ∷ []
unfolding register new_manager get assign
registered = refl

modified : apply_client_plugins (init manager order).0 order (1 ∷ []) ≡ 1 ∷ 7 ∷ []
unfolding apply_client_plugins init init_entries modify_all
modified = refl

stands : Stands manager.plugins order
unfolding get
stands = (refl, (refl, tt))

inits : (init manager order).1 ≡ none
unfolding init init_entries
inits = refl

fails : (init manager (entry tracing ∷ entry broken ∷ [])).1 ≡ some (init_failed "broken" 3)
unfolding init init_entries
fails = refl

close-init_example :
    ((close (init manager order).0).2 ≡ metrics ∷ tracing ∷ [])
    × ((close (init manager order).0).0 ≡ manager)
close-init_example = close-init manager order refl refl stands inits
