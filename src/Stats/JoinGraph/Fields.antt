-- ===== src/Stats/JoinGraph/Fields.antt =====
-- A field that `resolve_field` accepts is a column of a joined entity (src/services/stats/join_graph.rs).
use elidune_server.Prelude.{◌≡◌, str_eq, String, Bool, not, some}
use elidune_server.Prelude.Table.{IsRow, exists_where}
use elidune_server.Stats.Schema.{schema, get, EntityDef, RelationDef, FieldDef}
use elidune_server.Stats.JoinGraph.{AliasMap, JoinNode, ResolvedField, resolve_kind}
use elidune_server.Stats.JoinGraph.Joined.{Joined}

-- A relation has the name of its target, and the name of an entity has no dot.
abbrev misnamed : String × RelationDef → Bool
misnamed (name, relation) = not (str_eq relation.target_entity name)

abbrev has_misnamed : String × EntityDef → Bool
has_misnamed (name, def) = exists_where misnamed def.relations

-- What `resolve_field` promises of its result: a node of the map, of the entity that was named, of
-- which the schema has the field, and the field's text under that node's alias.
abbrev pub FieldOf : AliasMap → String → String → ResolvedField → Type 0
FieldOf m entity field r =
    (key : String) × (node : JoinNode) × (def : EntityDef) × (f : FieldDef) × IsRow (key, node) m
    × (node.entity_name ≡ entity)
    × (get entity schema ≡ some def)
    × (get field def.fields ≡ some f)
    × (r ≡ resolve_kind node.alias f.kind)

abbrev NodeOf : AliasMap → String → String → Type 0
NodeOf m entity table_alias =
    (key : String) × (node : JoinNode) × IsRow (key, node) m
    × (node.entity_name ≡ entity)
    × (node.alias ≡ table_alias)
