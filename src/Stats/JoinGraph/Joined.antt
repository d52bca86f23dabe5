-- ===== src/Stats/JoinGraph/Joined.antt =====
-- `resolve_joins` builds a tree of relations of the schema (src/services/stats/join_graph.rs).
use Prim.Native.String.append
use elidune_server.Prelude.{◌≡◌, ◌⊎◌, String, true, none, some, [], ◌∷◌, ◌++◌}
use elidune_server.Prelude.Table.{IsRow}
use elidune_server.Stats.Schema.{schema, get, EntityDef, RelationDef}
use elidune_server.Stats.Text.{has_char}
use elidune_server.Stats.JoinGraph.{AliasMap, JoinNode, root_node, relation_node}

-- The maps that grow from the root, a node at a time, each along a relation of the schema from the
-- entity of an earlier node, with that node's alias on the left of its ON.
pub data Joined (root : String) : AliasMap → Type 0 where
  from_root :
      (def : EntityDef) → get root schema ≡ some def → Joined root ((root, root_node root def) ∷ [])
  along :
      (m : AliasMap) (key path segment : String) (parent : JoinNode) (def target : EntityDef)
      (relation : RelationDef)
      → Joined root m
      → IsRow (key, parent) m
      → get parent.entity_name schema ≡ some def
      → get segment def.relations ≡ some relation
      → get relation.target_entity schema ≡ some target
      → get path m ≡ none
      → (path ≡ segment) ⊎ (has_char b'.' path ≡ true)
      → Joined root (m ++ (path, relation_node path parent.alias relation target) ∷ [])

-- The entity and alias that a walk has reached are those of a node.
abbrev Reached : String → String → AliasMap → Type 0
Reached entity alias m =
    (key : String) × (node : JoinNode) × IsRow (key, node) m
    × (node.entity_name ≡ entity)
    × (node.alias ≡ alias)

-- What a new node is made of.
Segment : String → String → String → String → JoinNode → Type 0
Segment path entity alias segment node =
    (def : EntityDef) × (relation : RelationDef) × (target : EntityDef) × (get entity schema
      ≡ some def)
    × (get segment def.relations ≡ some relation)
    × (get relation.target_entity schema ≡ some target)
    × (node ≡ relation_node path alias relation target)
