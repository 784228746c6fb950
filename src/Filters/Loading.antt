-- ===== src/Filters/Loading.antt =====
-- filters_runner.go, `LoadConfiguredFilters`: which part of the configuration has an effect.
use packetbeat.Base.{◌≡◌, refl, Option, none, some}
use packetbeat.Base.GoMap.{lookup, bytes_instance}
use packetbeat.Base.Text.{Bytes, codes}
use packetbeat.Filters.{
  Value, text, array, Items, no_items, item, Registry, Config, plugin_type, load_filter,
  load_filters, load_list, load_configured_filters,
}

module _ {T P : Type 0} where
  load_filter_type :
      (reg : Registry T P) (config config' : Config) (v : Value)
      → ((name : Bytes) → plugin_type reg config name ≡ plugin_type reg config' name)
      → load_filter reg config v ≡ load_filter reg config' v
  unfolding load_filter
  load_filter_type reg config config' (text name) h = rw (h name)
  load_filter_type reg config config' _ h = refl

  load_filters_type :
      (reg : Registry T P) (config config' : Config) (vs : Items)
      → ((name : Bytes) → plugin_type reg config name ≡ plugin_type reg config' name)
      → load_filters reg config vs ≡ load_filters reg config' vs
  unfolding load_filters
  load_filters_type reg config config' no_items h = refl
  load_filters_type reg config config' (item v vs) h =
      rw (load_filter_type reg config config' v h, load_filters_type reg config config' vs h)

  -- Two configurations with the same list of filters, and with the same type for each name, load
  -- the same plugins: no other option of a filter's configuration has an effect.
  pub load_configured_filters_type :
      (reg : Registry T P) (config config' : Config)
      → lookup (codes "filters") config ≡ lookup (codes "filters") config'
      → ((name : Bytes) → plugin_type reg config name ≡ plugin_type reg config' name)
      → load_configured_filters reg config ≡ load_configured_filters reg config'
  unfolding load_configured_filters
  load_configured_filters_type reg config config' same h =
      rw same (go (lookup (codes "filters") config'))
    where
      go : (v : Option Value) → load_list reg config v ≡ load_list reg config' v
      go none = refl
      go (some (array vs)) = load_filters_type reg config config' vs h
      go (some _) = refl
