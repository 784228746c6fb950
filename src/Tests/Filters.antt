-- ===== src/Tests/Filters.antt =====
-- Runs of filters_runner.go.
use packetbeat.Base.{ℕ, ◌+◌, ◌≡◌, refl, [], ◌∷◌, Option, none, some, inr, ltb, arith}
use packetbeat.Base.GoMap.{lookup, bytes_instance}
use packetbeat.Base.Text.{Bytes, codes}
use packetbeat.Filters.{
  Filter, text, array, table, item, no_items, field, no_fields, Fields, Registry, Config, ok,
  load_configured_filters, load_list, load_filters, load_filter, plugin_type, field_of,
}
use packetbeat.Filters.Loading.{load_configured_filters_type}

-- A filter adds its number to the event, and fails on sums from 10 on.
abbrev adding : Filter ℕ ℕ
adding plugin event = (event + plugin, ltb (event + plugin) 10)

-- `New` that would use the number of fields of its configuration.
abbrev size : Option Fields → ℕ
size none = 0
size (some no_fields) = 1
size (some (field k v fs)) = 2

abbrev registry : Registry ℕ ℕ
registry = record {
  filter_from_name = λ name. some 7;
  get = λ t. some (λ name cfg. inr (size cfg));
}

abbrev with_options : Config
with_options =
    (codes "filters", array (item (text (codes "nop")) no_items))
    ∷ (
      codes "nop",
      table (
          field (codes "type") (text (codes "nop"))
            (field (codes "x") (text (codes "y")) no_fields)),
    )
    ∷ []

abbrev without_options : Config
without_options =
    (codes "filters", array (item (text (codes "nop")) no_items))
    ∷ (codes "nop", table (field (codes "type") (text (codes "nop")) no_fields))
    ∷ []

load_without : load_configured_filters registry without_options ≡ ok (0 ∷ [])
unfolding load_configured_filters load_list load_filters load_filter plugin_type field_of lookup
load_without = refl

same_type :
    (name : Bytes)
    → plugin_type registry with_options name ≡ plugin_type registry without_options name
unfolding plugin_type lookup field_of
same_type name = ground arith

load_configured_filters_type_example :
    load_configured_filters registry with_options ≡ load_configured_filters registry without_options
unfolding lookup
load_configured_filters_type_example =
    load_configured_filters_type registry with_options without_options refl same_type
