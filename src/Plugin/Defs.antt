-- ===== src/Plugin/Defs.antt =====
-- plugin/plugin.go, Manager and LifecycleManager. A range over the map of plugins visits its entries
-- in an order that Go leaves open: it is an argument of the functions that range.
use eidola.Common.{
  String, Bool, true, false, not, Option, none, some, List, [], ◌∷◌, ◌++◌, map, if◌then◌else◌, keep,
}
use mathlib.Core.List.{reverse}
use eidola.Common.Dict.{Dict, Entry, get, assign}

-- The results of a plugin's hooks, if it is a LifecycleHook; none is a nil error.
pub record Hooks (E : Type 0) : Type 0 where
  pub before_start : Option E
  pub after_start : Option E
  pub before_stop : Option E
  pub after_stop : Option E

-- What an InterceptorPlugin returns: each may be nil.
pub record Interceptors (I : Type 0) : Type 0 where
  pub unary_server : Option I
  pub stream_server : Option I
  pub unary_client : Option I
  pub stream_client : Option I

-- A plugin, by what its methods return; an optional field is none where the plugin does not
-- implement the interface.
pub record Plugin (E O I : Type 0) : Type 0 where
  pub name : String
  pub init : Option E
  pub close : Option E
  pub register_with_server : Option (Option E)
  pub modify_client_options : Option (List O → List O)
  pub interceptors : Option (Interceptors I)
  pub hooks : Option (Hooks E)

pub data Error (E : Type 0) : Type 0 where
  after_initialization already_initialized not_initialized : Error E
  already_registered : String → Error E
  init_failed : String → E → Error E
  register_failed : String → E → Error E
  hook_failed : String → E → Error E
  close_failed : List (String × E) → Error E

pub record Manager (E O I : Type 0) : Type 0 where
  pub plugins : Dict (Plugin E O I)
  pub init_order : List String
  pub init_complete : Bool

-- The interfaces that GetByType knows.
pub data PluginType : Type 0 where
  server_plugin client_plugin interceptor_plugin other_type : PluginType

abbrev pub is_some {ℓ} : {A : Type ℓ} → Option A → Bool
is_some none = false
is_some (some a) = true

unfoldable pub as_close_error : {E : Type 0} → List (String × E) → Option (Error E)
as_close_error [] = none
as_close_error (e ∷ es) = some (close_failed (e ∷ es))

abbrev pub cons_some : {I : Type 0} → Option I → List I → List I
cons_some none is = is
cons_some (some i) is = i ∷ is

module _ {E O I : Type 0} where
  unfoldable pub new_manager : Manager E O I
  new_manager = record { plugins = []; init_order = []; init_complete = false }

  unfoldable pub register : Manager E O I → Plugin E O I → Manager E O I × Option (Error E)
  register m p =
      if m.init_complete
      then (m, some after_initialization)
      else if is_some (get m.plugins p.name)
      then (m, some (already_registered p.name))
      else (record m { plugins = assign m.plugins p.name p }, none)

  unfoldable pub get_plugin : Manager E O I → String → Option (Plugin E O I)
  get_plugin m name = get m.plugins name

  unfoldable pub get_all : List (Entry (Plugin E O I)) → List (Plugin E O I)
  get_all order = map (λ e. e.value) order

  unfoldable pub implements : PluginType → Plugin E O I → Bool
  implements server_plugin p = is_some p.register_with_server
  implements client_plugin p = is_some p.modify_client_options
  implements interceptor_plugin p = is_some p.interceptors
  implements other_type p = false

  unfoldable pub get_by_type : PluginType → List (Entry (Plugin E O I)) → List (Plugin E O I)
  unfolding implements get_all
  get_by_type t order = keep (implements t) (get_all order)

  -- The loop of Init: the names that were initialised, and the error that ended it.
  unfoldable pub init_entries : List (Entry (Plugin E O I)) → List String × Option (Error E)
  init_entries [] = ([], none)
  init_entries (e ∷ es) = elim e.value.init [
    | some err ↦ ([], some (init_failed e.key err))
    | none ↦ let rest = init_entries es in (e.key ∷ rest.0, rest.1)
  ]

  unfoldable pub init :
      Manager E O I → List (Entry (Plugin E O I)) → Manager E O I × Option (Error E)
  init m order =
      let r = init_entries order in
      if m.init_complete
      then (m, some already_initialized)
      else (record m { init_order = m.init_order ++ r.0; init_complete = not (is_some r.1) }, r.1)

  -- The loop of Close over the names, the last initialised first: the plugins that are closed, and
  -- the errors.
  unfoldable pub close_names :
      Dict (Plugin E O I) → List String → List (Plugin E O I) × List (String × E)
  close_names plugins [] = ([], [])
  close_names plugins (name ∷ names) =
      let rest = close_names plugins names in
      elim (get plugins name) [
        | none ↦ rest
        | some p ↦ elim p.close [
          | none ↦ (p ∷ rest.0, rest.1)
          | some err ↦ (p ∷ rest.0, (name, err) ∷ rest.1)
        ]
      ]

  -- Close, with the plugins whose Close it calls, in order.
  unfoldable pub close : Manager E O I → Manager E O I × Option (Error E) × List (Plugin E O I)
  close m =
      let r = close_names m.plugins (reverse m.init_order) in
      if m.init_complete
      then (record m { init_complete = false; init_order = [] }, as_close_error r.1, r.0)
      else (m, none, [])

  unfoldable pub register_entries : List (Entry (Plugin E O I)) → Option (Error E)
  register_entries [] = none
  register_entries (e ∷ es) = elim e.value.register_with_server [
    | some (some err) ↦ some (register_failed e.key err)
    | some none ↦ register_entries es
    | none ↦ register_entries es
  ]

  unfoldable pub apply_server_plugins :
      Manager E O I → List (Entry (Plugin E O I)) → Option (Error E)
  apply_server_plugins m order =
      if m.init_complete then register_entries order else some not_initialized

  unfoldable pub modify_all : List (Entry (Plugin E O I)) → List O → List O
  modify_all [] result = result
  modify_all (e ∷ es) result =
      modify_all es (elim e.value.modify_client_options [ none ↦ result | some f ↦ f result ])

  unfoldable pub apply_client_plugins :
      Manager E O I → List (Entry (Plugin E O I)) → List O → List O
  apply_client_plugins m order opts = if m.init_complete then modify_all order opts else opts

  -- One of the four lists of GetInterceptors, by the field that it reads.
  unfoldable pub collect : (Interceptors I → Option I) → List (Entry (Plugin E O I)) → List I
  collect field [] = []
  collect field (e ∷ es) =
      let rest = collect field es in
      elim e.value.interceptors [ none ↦ rest | some i ↦ cons_some (field i) rest ]

  unfoldable pub get_interceptors :
      Manager E O I → List (Entry (Plugin E O I)) → List I × List I × List I × List I
  get_interceptors m order =
      if m.init_complete
      then (
        collect (λ i. i.unary_server) order,
        collect (λ i. i.stream_server) order,
        collect (λ i. i.unary_client) order,
        collect (λ i. i.stream_client) order,
      )
      else ([], [], [], [])

  -- The plugins whose hook is called, up to the first that fails, and its error.
  unfoldable pub run_hooks :
      (Hooks E → Option E) → List (Plugin E O I) → List (Plugin E O I) × Option (Error E)
  run_hooks hook [] = ([], none)
  run_hooks hook (p ∷ ps) =
      let rest = run_hooks hook ps in
      elim p.hooks [
        | none ↦ rest
        | some h ↦ elim (hook h) [
          | none ↦ (p ∷ rest.0, rest.1)
          | some err ↦ (p ∷ [], some (hook_failed p.name err))
        ]
      ]

  unfoldable pub execute_before_start :
      List (Entry (Plugin E O I)) → List (Plugin E O I) × Option (Error E)
  execute_before_start order = run_hooks (λ h. h.before_start) (get_all order)

  unfoldable pub execute_after_start :
      List (Entry (Plugin E O I)) → List (Plugin E O I) × Option (Error E)
  execute_after_start order = run_hooks (λ h. h.after_start) (get_all order)

  unfoldable pub execute_before_stop :
      List (Entry (Plugin E O I)) → List (Plugin E O I) × Option (Error E)
  execute_before_stop order = run_hooks (λ h. h.before_stop) (reverse (get_all order))

  unfoldable pub execute_after_stop :
      List (Entry (Plugin E O I)) → List (Plugin E O I) × Option (Error E)
  execute_after_stop order = run_hooks (λ h. h.after_stop) (reverse (get_all order))
