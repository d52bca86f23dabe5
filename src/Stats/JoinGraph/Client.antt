-- ===== src/Stats/JoinGraph/Client.antt =====
-- Join paths and fields that are refused are the client's errors (src/services/stats/join_graph.rs).
use elidune_server.Prelude.{
  ℕ, zero, suc, inl, inr, Option-cases, str_eq, String, List, [], ◌∷◌, ◌++◌,
}
use elidune_server.Prelude.Table.{select_where}
use elidune_server.Error.{ok_or, fail_if}
use elidune_server.Stats.Schema.{schema, get}
use elidune_server.Stats.Text.{split}
use elidune_server.Stats.Chain.Client.{Client, chain-Client, ok_or-Client, fail_if-Client}
use elidune_server.Stats.JoinGraph.{
  AliasMap, root_node, join_segment, next_path, walk, join_paths, resolve_joins, only_candidate,
  find_alias, resolve_in, field_parts, resolve_field,
}

join_segment-Client :
    (path entity alias segment : String) → Client (join_segment path entity alias segment)
unfolding join_segment
join_segment-Client path entity alias segment =
    chain-Client (ok_or _ (get entity schema)) _ (ok_or-Client _ (get entity schema) tt) (λ def d.
      chain-Client (ok_or _ (get segment def.relations)) _
        (ok_or-Client _ (get segment def.relations) tt)
        (λ relation e.
          chain-Client (ok_or _ (get relation.target_entity schema)) _
            (ok_or-Client _ (get relation.target_entity schema) tt) (λ target f. tt)))

walk-Client :
    (i : ℕ) (path entity alias : String) (segments : List String) (m : AliasMap)
    → Client (walk i path entity alias segments m)
unfolding walk
walk-Client i path entity alias [] m = tt
walk-Client i path entity alias (segment ∷ segments) m =
    let current_path = next_path i path segment in
    elim (Option-cases (get current_path m)) [
      | inl absent ↦
          rw (absent, Client, walk)
            (chain-Client (join_segment current_path entity alias segment) _
              (join_segment-Client current_path entity alias segment)
              (λ node e.
                walk-Client (suc i) current_path node.entity_name node.alias segments
                  (m ++ (current_path, node) ∷ [])))
      | inr (node, found) ↦
          rw (found, Client, walk)
            (walk-Client (suc i) current_path node.entity_name node.alias segments m)
    ]

join_paths-Client :
    (root : String) (paths : List String) (m : AliasMap) → Client (join_paths root paths m)
unfolding join_paths
join_paths-Client root [] m = tt
join_paths-Client root (path ∷ paths) m =
    chain-Client (fail_if (str_eq path "") _) _ (fail_if-Client (str_eq path "") _ tt) (λ u d.
      chain-Client (walk zero "" root root (split b'.' path) m) _
        (walk-Client zero "" root root (split b'.' path) m)
        (λ joined e. join_paths-Client root paths joined))

pub resolve_joins-Client : (root : String) (paths : List String) → Client (resolve_joins root paths)
unfolding resolve_joins
resolve_joins-Client root paths =
    chain-Client (ok_or _ (get root schema)) _ (ok_or-Client _ (get root schema) tt)
      (λ def d. join_paths-Client root paths ((root, root_node root def) ∷ []))

candidate-Client : (entity : String) (ns : AliasMap) → Client (only_candidate entity ns)
candidate-Client entity [] = tt
candidate-Client entity (n ∷ []) = tt
candidate-Client entity (n ∷ n2 ∷ ns) = tt

find_alias-Client : (entity : String) (m : AliasMap) → Client (find_alias entity m)
unfolding find_alias
find_alias-Client entity m = elim (Option-cases (get entity m)) [
  | inl absent ↦
      rw (absent, Client)
        (candidate-Client entity (select_where (λ n. str_eq n.1.entity_name entity) m))
  | inr (node, found) ↦ rw (found, Client) tt
]

pub resolve_field-Client : (path root : String) (m : AliasMap) → Client (resolve_field path root m)
unfolding resolve_field resolve_in
resolve_field-Client path root m =
    let (entity, field) = field_parts path root in
    chain-Client (ok_or _ (get entity schema)) _ (ok_or-Client _ (get entity schema) tt) (λ def d.
      chain-Client (ok_or _ (get field def.fields)) _ (ok_or-Client _ (get field def.fields) tt)
        (λ f e. chain-Client (find_alias entity m) _ (find_alias-Client entity m) (λ a g. tt)))
