-- ===== src/Stats/JoinGraph.antt =====
-- Join paths and fields resolved against the schema (src/services/stats/join_graph.rs). The map of
-- aliases keeps the order of insertion, and only absent keys are inserted.
pub mod Joined
pub mod Fields
pub mod Client
use elidune_server.Prelude.{
  ℕ, zero, suc, String, str_eq, Bool, if◌then◌else◌, Option, none, some, List, [], ◌∷◌, ◌++◌,
}
use elidune_server.Prelude.Table.{select_where}
use elidune_server.Error.{
  Result, ok, err, ok_or, fail_if, bad_request, validation, literal, unknown_root_entity,
  unknown_entity_in_join_graph, unknown_relation, target_not_registered, unknown_entity_in_field,
  field_not_allowed, not_joined, ambiguous,
}
use elidune_server.Stats.Schema.{
  schema, get, EntityDef, RelationDef, FieldDef, FieldKind, physical, computed,
}
use elidune_server.Stats.Sql.{Sql, raw, ident}
use elidune_server.Stats.Text.{split, split_once, replace_char, replace_from, codes, ◌<>◌}
use elidune_server.Stats.Chain.{◌>>=◌, ◌>>◌}

pub data ResolvedField : Type 0 where
  physical_field : String → String → ResolvedField
  computed_field : String → ResolvedField

abbrev pub sql_expr : ResolvedField → Sql
sql_expr (physical_field table_alias column) = ident table_alias ∷ raw "." ∷ ident column ∷ []
sql_expr (computed_field expression) = raw expression ∷ []

pub record JoinOn : Type 0 where
  pub from_alias : String
  pub from_column : String
  pub to_alias : String
  pub to_column : String

pub record JoinNode : Type 0 where
  pub alias : String
  pub table : String
  pub entity_name : String
  pub join_on : Option JoinOn

abbrev pub AliasMap : Type 0
AliasMap = List (String × JoinNode)

abbrev pub root_node : String → EntityDef → JoinNode
root_node root_entity def = record {
  alias = root_entity;
  table = def.table;
  entity_name = root_entity;
  join_on = none;
}

abbrev pub relation_node : String → String → RelationDef → EntityDef → JoinNode
relation_node path from_alias relation target =
    let new_alias = replace_char b'.' "__" path in
    record {
      alias = new_alias;
      table = target.table;
      entity_name = relation.target_entity;
      join_on = some record {
        from_alias = from_alias;
        from_column = relation.from_column;
        to_alias = new_alias;
        to_column = relation.to_column;
      };
    }

-- The node for a segment that is followed from an entity.
unfoldable pub join_segment : String → String → String → String → Result JoinNode
join_segment path entity alias segment =
    ok_or (bad_request (unknown_entity_in_join_graph entity)) (get entity schema) >>= λ entity_def.
    ok_or (bad_request (unknown_relation entity segment)) (get segment entity_def.relations)
    >>= λ relation.
        ok_or (bad_request (target_not_registered relation.target_entity))
          (get relation.target_entity schema)
        >>= λ target_def. ok (relation_node path alias relation target_def)

abbrev pub next_path : ℕ → String → String → String
next_path zero path segment = segment
next_path (suc i) path segment = path <> ("." <> segment)

-- The loop over the segments of a path: their number so far, the path so far, the entity and the
-- alias that it has reached.
unfoldable pub walk : ℕ → String → String → String → List String → AliasMap → Result AliasMap
walk i path entity alias [] alias_map = ok alias_map
walk i path entity alias (segment ∷ segments) alias_map =
    let current_path = next_path i path segment in
    elim (get current_path alias_map) [
      | some existing ↦
          walk (suc i) current_path existing.entity_name existing.alias segments alias_map
      | none ↦ join_segment current_path entity alias segment >>= λ node.
          walk (suc i) current_path node.entity_name node.alias segments
            (alias_map ++ (current_path, node) ∷ [])
    ]

unfoldable pub join_paths : String → List String → AliasMap → Result AliasMap
join_paths root_entity [] alias_map = ok alias_map
join_paths root_entity (path ∷ paths) alias_map =
    fail_if (str_eq path "") (validation (literal "Empty join path"))
    >> (walk zero "" root_entity root_entity (split b'.' path) alias_map >>= λ joined.
        join_paths root_entity paths joined)

unfoldable pub resolve_joins : String → List String → Result AliasMap
resolve_joins root_entity paths =
    ok_or (bad_request (unknown_root_entity root_entity)) (get root_entity schema) >>= λ def.
    join_paths root_entity paths ((root_entity, root_node root_entity def) ∷ [])

abbrev pub join_sql : JoinNode → Option JoinOn → Sql
join_sql node none = []
join_sql node (some on) =
    raw " LEFT JOIN "
    ∷ raw node.table
    ∷ raw " AS "
    ∷ ident node.alias
    ∷ raw " ON "
    ∷ ident on.from_alias
    ∷ raw "."
    ∷ raw on.from_column
    ∷ raw " = "
    ∷ ident on.to_alias
    ∷ raw "."
    ∷ raw on.to_column
    ∷ []

abbrev pub emit_join_sql : AliasMap → Sql
emit_join_sql [] = []
emit_join_sql ((path, node) ∷ nodes) = join_sql node node.join_on ++ emit_join_sql nodes

abbrev pub substitute_alias : String → String → String
substitute_alias template table_alias =
    replace_from (codes "{alias}") 6 ("\"" <> (table_alias <> "\"")) zero template

-- `entity.field`, or `field` of the root entity
abbrev pub field_parts : String → String → String × String
field_parts field_path root_entity = elim (split_once b'.' field_path) [
  | none ↦ (root_entity, field_path)
  | some parts ↦ parts
]

abbrev pub only_candidate : String → List (String × JoinNode) → Result String
only_candidate entity_name [] = err (bad_request (not_joined entity_name))
only_candidate entity_name ((path, node) ∷ []) = ok node.alias
only_candidate entity_name (n ∷ m ∷ nodes) = err (bad_request (ambiguous entity_name))

unfoldable pub find_alias : String → AliasMap → Result String
find_alias entity_name alias_map = elim (get entity_name alias_map) [
  | some node ↦ ok node.alias
  | none ↦
      only_candidate entity_name (select_where (λ n. str_eq n.1.entity_name entity_name) alias_map)
]

abbrev pub resolve_kind : String → FieldKind → ResolvedField
resolve_kind table_alias (physical column) = physical_field table_alias column
resolve_kind table_alias (computed sql_template) =
    computed_field (substitute_alias sql_template table_alias)

unfoldable pub resolve_in : String → String → AliasMap → Result ResolvedField
resolve_in entity_name field_name alias_map =
    ok_or (bad_request (unknown_entity_in_field entity_name)) (get entity_name schema)
    >>= λ entity_def.
        ok_or (bad_request (field_not_allowed entity_name field_name))
          (get field_name entity_def.fields)
        >>= λ field_def. find_alias entity_name alias_map >>= λ table_alias.
            ok (resolve_kind table_alias field_def.kind)

unfoldable pub resolve_field : String → String → AliasMap → Result ResolvedField
resolve_field field_path root_entity alias_map =
    let parts = field_parts field_path root_entity in resolve_in parts.0 parts.1 alias_map
