-- ===== src/Stats/Conditions.antt =====
-- Conditions with bind values (src/services/stats/query_builder.rs): WHERE and HAVING.
-- `as_array` is `serde_json::Value::as_array`.
pub mod Numbered
pub mod Client
use elidune_server.Prelude.{ℕ, suc, String, str_eq, Option, none, some, List, [], ◌∷◌, ◌++◌}
use elidune_server.Prelude.Table.{select_first}
use elidune_server.Error.{
  Result, ok, err, ok_or, bad_request, validation, internal, literal, unknown_having_alias,
}
use elidune_server.Stats.Body.{
  StatsBuilderBody, StatsFilter, HavingFilter, StatsAggregation, FilterOperator, eq, neq, gt, gte,
  lt, lte, in_list, not_in, is_null, is_not_null, AggregateFunction, count, count_distinct, sum,
  avg, min, max,
}
use elidune_server.Stats.Sql.{Sql, raw, ident, param, join}
use elidune_server.Stats.Chain.{◌>>=◌}
use elidune_server.Stats.JoinGraph.{
  AliasMap, ResolvedField, physical_field, computed_field, sql_expr, resolve_field,
}

-- `binds` and `bind_idx`, that the builders share
pub record Binds (Json : Type 0) : Type 0 where
  pub binds : List Json
  pub bind_idx : ℕ

-- A builder of a text, that may push bind values.
abbrev pub Builder : Type 0 → Type 0
Builder Json = Binds Json → Result (Sql × Binds Json)

abbrev aggregate_of : String → String → String → String → Sql
aggregate_of start finish alias col =
    raw start ∷ ident alias ∷ raw "." ∷ ident col ∷ raw finish ∷ []

abbrev pub build_agg_expr : AggregateFunction → String → String → Sql
build_agg_expr count alias col = aggregate_of "COUNT(" ")" alias col
build_agg_expr count_distinct alias col = aggregate_of "COUNT(DISTINCT " ")" alias col
build_agg_expr sum alias col = aggregate_of "SUM(" ")" alias col
build_agg_expr avg alias col = aggregate_of "AVG(" ")" alias col
build_agg_expr min alias col = aggregate_of "MIN(" ")" alias col
build_agg_expr max alias col = aggregate_of "MAX(" ")" alias col

abbrev pub agg_expr : StatsAggregation → ResolvedField → Result Sql
agg_expr agg (physical_field table_alias column) =
    ok (build_agg_expr agg.function table_alias column)
agg_expr agg (computed_field expression) =
    err (validation (literal "HAVING aggregation must reference a physical column"))

abbrev pub where_text : List Sql → Sql
where_text [] = []
where_text (p ∷ ps) = raw " WHERE " ∷ join " AND " (p ∷ ps)

abbrev pub op_str : FilterOperator → Result String
op_str eq = ok "="
op_str neq = ok "!="
op_str gt = ok ">"
op_str gte = ok ">="
op_str lt = ok "<"
op_str lte = ok "<="
op_str in_list = err (internal (literal "Unexpected filter operator in build_condition_sql"))
op_str not_in = err (internal (literal "Unexpected filter operator in build_condition_sql"))
op_str is_null = err (internal (literal "Unexpected filter operator in build_condition_sql"))
op_str is_not_null = err (internal (literal "Unexpected filter operator in build_condition_sql"))

module _ {Json : Type 0} where
  abbrev pub push : Json → Binds Json → Binds Json
  push value b = record { binds = b.binds ++ value ∷ []; bind_idx = suc b.bind_idx }

  -- The placeholders of an array, each with its bind value.
  abbrev pub bind_array : List Json → Binds Json → List Sql × Binds Json
  bind_array [] b = ([], b)
  bind_array (v ∷ vs) b =
      let rest = bind_array vs (push v b) in ((param b.bind_idx ∷ []) ∷ rest.0, rest.1)

  abbrev pub build_comparison : Sql → FilterOperator → Json → Builder Json
  build_comparison expr op value b = op_str op >>= λ o.
      ok (expr ++ raw " " ∷ raw o ∷ raw " " ∷ param b.bind_idx ∷ [], push value b)

  -- `.iter().map(…).collect()`, with the bind values threaded
  abbrev pub collect_binds :
      {A : Type 0} → (A → Builder Json) → List A → Binds Json → Result (List Sql × Binds Json)
  collect_binds f [] b = ok ([], b)
  collect_binds f (x ∷ xs) b =
      f x b >>= λ (s, b1). collect_binds f xs b1 >>= λ (ss, b2). ok (s ∷ ss, b2)

module _ {Json : Type 0} (as_array : Json → Option (List Json)) where
  abbrev pub build_list_condition : Sql → String → Json → Builder Json
  build_list_condition expr kw value b =
      ok_or (validation (literal "Operator 'in' / 'notIn' expects a JSON array value"))
        (as_array value)
      >>= λ arr.
          let bound = bind_array arr b in
          ok (expr ++ (raw " " ∷ raw kw ∷ raw " (" ∷ join ", " bound.0 ++ raw ")" ∷ []), bound.1)

  unfoldable pub build_condition_sql : Sql → FilterOperator → Json → Builder Json
  build_condition_sql expr is_null value b = ok (expr ++ raw " IS NULL" ∷ [], b)
  build_condition_sql expr is_not_null value b = ok (expr ++ raw " IS NOT NULL" ∷ [], b)
  build_condition_sql expr in_list value b = build_list_condition expr "IN" value b
  build_condition_sql expr not_in value b = build_list_condition expr "NOT IN" value b
  build_condition_sql expr eq value b = build_comparison expr eq value b
  build_condition_sql expr neq value b = build_comparison expr neq value b
  build_condition_sql expr gt value b = build_comparison expr gt value b
  build_condition_sql expr gte value b = build_comparison expr gte value b
  build_condition_sql expr lt value b = build_comparison expr lt value b
  build_condition_sql expr lte value b = build_comparison expr lte value b

  module _ (root_entity : String) (alias_map : AliasMap) where
    unfoldable pub filter_condition : StatsFilter Json → Builder Json
    filter_condition f b = resolve_field f.field root_entity alias_map >>= λ resolved.
        build_condition_sql (sql_expr resolved) f.op f.value b

    unfoldable pub build_filter_conditions :
        List (StatsFilter Json) → Binds Json → Result (List Sql × Binds Json)
    build_filter_conditions = collect_binds filter_condition

    -- One group of `filter_groups`.
    unfoldable pub group_condition : List (StatsFilter Json) → Builder Json
    group_condition [] b = err (validation (literal "filterGroups must not contain empty groups"))
    group_condition (f ∷ fs) b = build_filter_conditions (f ∷ fs) b >>= λ (inner, b1).
        ok (raw "(" ∷ join " AND " inner ++ raw ")" ∷ [], b1)

    unfoldable pub having_condition : List StatsAggregation → HavingFilter Json → Builder Json
    having_condition aggregations h b =
        ok_or (bad_request (unknown_having_alias h.field))
          (select_first (λ a. str_eq a.alias h.field) aggregations)
        >>= λ agg. resolve_field agg.field root_entity alias_map >>= λ resolved.
            agg_expr agg resolved >>= λ expr. build_condition_sql expr h.op h.value b

    unfoldable pub build_having_conditions :
        List StatsAggregation
        → List (HavingFilter Json)
        → Binds Json
        → Result (List Sql × Binds Json)
    build_having_conditions aggregations = collect_binds (having_condition aggregations)

    -- The first part of the WHERE clause.
    unfoldable pub filters_part :
        List (StatsFilter Json) → Binds Json → Result (List Sql × Binds Json)
    filters_part [] b = ok ([], b)
    filters_part (f ∷ fs) b = build_filter_conditions (f ∷ fs) b >>= λ (conditions, b1).
        ok ((raw "(" ∷ join " AND " conditions ++ raw ")" ∷ []) ∷ [], b1)

    -- The second part.
    unfoldable pub groups_part :
        List (List (StatsFilter Json)) → Binds Json → Result (List Sql × Binds Json)
    groups_part [] b = ok ([], b)
    groups_part (g ∷ gs) b = collect_binds group_condition (g ∷ gs) b >>= λ (or_groups, b1).
        ok ((raw "(" ∷ join " OR " or_groups ++ raw ")" ∷ []) ∷ [], b1)

    unfoldable pub build_where_clause : StatsBuilderBody Json → Builder Json
    build_where_clause query b = filters_part query.filters b >>= λ (fs, b1).
        groups_part query.filter_groups b1 >>= λ (gs, b2). ok (where_text (fs ++ gs), b2)

    unfoldable pub build_having_clause :
        List StatsAggregation → List (HavingFilter Json) → Builder Json
    build_having_clause aggregations [] b = ok ([], b)
    build_having_clause aggregations (h ∷ hs) b =
        build_having_conditions aggregations (h ∷ hs) b >>= λ (conditions, b1).
        ok (raw " HAVING " ∷ join " AND " conditions, b1)
