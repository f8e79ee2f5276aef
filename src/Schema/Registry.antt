-- ===== src/Schema/Registry.antt =====
-- The registry as a map from names to schemas that is never overwritten.
use synthgen_core.Prelude.{Text, text_eq, true, false, ◌≡◌, ◌⊎◌, arith, if◌then◌else◌}
use synthgen_core.Prelude.Dict.{find-insert}
use synthgen_core.Common.Result.{ok, FailsWith, duplicate_type_name, not_found}
use synthgen_core.Schema.{Schema, SchemaRegistry, has_schema, get_schema, register_schema}

module _ {F : Type 0} where
  -- Registering a schema under a name that is taken fails and leaves the registry as it was. Under a
  -- new name it succeeds; then that name gives the schema, and every other name what it gave.
  pub get_schema-register_schema :
      (s : Schema F) (registry : SchemaRegistry F) (name : Text)
      → let (result, after) = register_schema s registry in
        ((has_schema registry s.type_name ≡ true)
          × FailsWith duplicate_type_name result
          × (after ≡ registry))
        ⊎ ((has_schema registry s.type_name ≡ false)
            × (result ≡ ok tt)
            × (get_schema after name
                ≡ (if text_eq s.type_name name then ok s else get_schema registry name)))
  unfolding register_schema has_schema get_schema
  get_schema-register_schema s registry name =
      ground (arith, find-insert s.type_name name s registry.schemas)

  -- `get_schema` succeeds exactly where `has_schema` answers true.
  get_schema-has_schema :
      (registry : SchemaRegistry F) (name : Text)
      → ((has_schema registry name ≡ true) × ((s : Schema F) × (get_schema registry name ≡ ok s)))
        ⊎ ((has_schema registry name ≡ false) × FailsWith not_found (get_schema registry name))
  unfolding has_schema get_schema
  get_schema-has_schema registry name = ground arith
