-- ===== src/Filters.antt =====
-- filters_runner.go: the filters that are loaded from the configuration, and the loop that runs
-- the events through them. libbeat's registry of filters and the filters are parameters.
pub mod Runner
pub mod Loading
use packetbeat.Base.{
  ℕ, ◌≡◌, Bool, true, false, List, [], ◌∷◌, Option, none, some, ◌⊎◌, inl, inr, if◌then◌else◌,
}
use packetbeat.Base.GoMap.{bytes_eq, lookup, bytes_instance}
use packetbeat.Base.Text.{Bytes, codes}

-- `FilterRunner`, with the queue and the results as the lists of what goes through the channels.
pub record FilterRunner (P E : Type 0) : Type 0 where
  pub filters_queue : List E
  pub results : List E
  pub order : List P

-- `plugin.Filter(event)`: the event it returns, and whether its error is nil.
abbrev pub Filter : Type 0 → Type 0 → Type 0
Filter P E = P → E → E × Bool

module _ {P E : Type 0} where
  -- `NewFilterRunner`
  unfoldable pub new_filter_runner : List E → List P → FilterRunner P E
  new_filter_runner results order = record { filters_queue = []; results = results; order = order }

  -- The inner loop of `Run`: `break` leaves the loop over the filters, with the event that the
  -- failed filter returned.
  unfoldable pub apply_filters : Filter P E → List P → E → E
  apply_filters filter [] event = event
  apply_filters filter (plugin ∷ plugins) event =
      let (event', fine) = filter plugin event in
      let rest = apply_filters filter plugins event' in if fine then rest else event'

  -- `Run`, until the queue is closed: what is written to the channel of results.
  unfoldable pub run : Filter P E → List P → List E → List E
  run filter order [] = []
  run filter order (event ∷ queue) = apply_filters filter order event ∷ run filter order queue

-- A value of the configuration, as the YAML decoder builds it.
mutual
  pub data Value : Type 0 where
    text : Bytes → Value
    array : Items → Value
    table : Fields → Value
    other : Value

  pub data Items : Type 0 where
    no_items : Items
    item : Value → Items → Items

  pub data Fields : Type 0 where
    no_fields : Fields
    field : Bytes → Value → Fields → Fields

-- `plugin_config[key]`
unfoldable pub field_of : Bytes → Fields → Option Value
field_of key no_fields = none
field_of key (field k v fs) = if bytes_eq k key then some v else field_of key fs

-- What the text of an error names: a filter or a type in the configuration, or a plugin's type, and
-- the error of `New`.
pub data LoadError (T : Type 0) : Type 0 where
  filters_not_array filter_not_string : LoadError T
  no_such_filter_type_or_configuration invalid_configuration no_type no_such_filter_type :
      Bytes → LoadError T
  no_plugin_loaded : T → LoadError T
  initializing_failed : T → Bytes → LoadError T

pub data Loaded {ℓ} (T : Type 0) (A : Type ℓ) : Type ℓ where
  ok : A → Loaded T A
  err : LoadError T → Loaded T A

infixl 5 ◌>>=◌
abbrev pub ◌>>=◌ {ℓ κ} :
    {T : Type 0} {A : Type ℓ} {B : Type κ} → Loaded T A → (A → Loaded T B) → Loaded T B
ok a >>= f = f a
err e >>= f = err e

-- libbeat's registry: `FilterFromName`, and `Filters.Get` with the `New` of what it returns.
-- `none` is an error, or a nil plugin. `New` takes the name and the configuration, which may be nil,
-- and returns the text of an error, or a plugin.
pub record Registry (T P : Type 0) : Type 0 where
  pub filter_from_name : Bytes → Option T
  pub get : T → Option (Bytes → Option Fields → Bytes ⊎ P)

or_error {ℓ} : {T : Type 0} {A : Type ℓ} → Option A → LoadError T → Loaded T A
or_error none e = err e
or_error (some a) e = ok a

abbrev pub Config : Type 0
Config = List (Bytes × Value)

module _ {T P : Type 0} where
  -- The type of a filter that has a configuration.
  type_of_table : Registry T P → Bytes → Value → Loaded T T
  type_of_table reg filter (table fields) = elim (field_of (codes "type") fields) [
    | some (text type_str) ↦ or_error (reg.filter_from_name type_str) (no_such_filter_type type_str)
    | _ ↦ err (no_type filter)
  ]
  type_of_table reg filter _ = err (invalid_configuration filter)

  -- `plugin_type`: from the configuration under the filter's name, or by the name itself.
  unfoldable pub plugin_type : Registry T P → Config → Bytes → Loaded T T
  unfolding type_of_table or_error
  plugin_type reg config filter = elim (lookup filter config) [
    | none ↦ or_error (reg.filter_from_name filter) (no_such_filter_type_or_configuration filter)
    | some cfg ↦ type_of_table reg filter cfg
  ]

  -- `filter_plugin.New(filter, plugin_config)`. The variable of this name that the branch assigns
  -- is a new one, declared by `:=` in the branch, so the argument is the outer one, which is nil.
  instantiate : Registry T P → Bytes → T → Loaded T P
  instantiate reg filter type_ = elim (reg.get type_) [
    | none ↦ err (no_plugin_loaded type_)
    | some make ↦ elim (make filter none) [
      | inl e ↦ err (initializing_failed type_ e)
      | inr plugin ↦ ok plugin
    ]
  ]

  -- The body of the loop.
  unfoldable pub load_filter : Registry T P → Config → Value → Loaded T P
  unfolding instantiate or_error
  load_filter reg config (text filter) = do
    type_ ← plugin_type reg config filter
    instantiate reg filter type_
  load_filter reg config _ = err filter_not_string

  unfoldable pub load_filters : Registry T P → Config → Items → Loaded T (List P)
  load_filters reg config no_items = ok []
  load_filters reg config (item v vs) = do
    plugin ← load_filter reg config v
    plugins ← load_filters reg config vs
    ok (plugin ∷ plugins)

  unfoldable pub load_list : Registry T P → Config → Option Value → Loaded T (List P)
  load_list reg config none = ok []
  load_list reg config (some (array vs)) = load_filters reg config vs
  load_list reg config (some _) = err filters_not_array

  -- `LoadConfiguredFilters`
  unfoldable pub load_configured_filters : Registry T P → Config → Loaded T (List P)
  unfolding load_list
  load_configured_filters reg config = load_list reg config (lookup (codes "filters") config)
