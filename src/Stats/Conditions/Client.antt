-- ===== src/Stats/Conditions/Client.antt =====
-- Conditions that are refused are the client's errors (src/services/stats/query_builder.rs).
use elidune_server.Prelude.{String, str_eq, Option, List, [], ◌∷◌}
use elidune_server.Prelude.Table.{select_first}
use elidune_server.Error.{ok_or}
use elidune_server.Stats.Body.{
  StatsBuilderBody, StatsFilter, HavingFilter, StatsAggregation, FilterOperator, eq, neq, gt, gte,
  lt, lte, in_list, not_in, is_null, is_not_null,
}
use elidune_server.Stats.Sql.{Sql}
use elidune_server.Stats.Chain.Client.{Client, chain-Client, ok_or-Client}
use elidune_server.Stats.JoinGraph.{
  AliasMap, ResolvedField, physical_field, computed_field, sql_expr, resolve_field,
}
use elidune_server.Stats.JoinGraph.Client.{resolve_field-Client}
use elidune_server.Stats.Conditions.{
  Binds, Builder, collect_binds, build_condition_sql, filter_condition, build_filter_conditions,
  group_condition, agg_expr, having_condition, build_having_conditions, filters_part, groups_part,
  build_where_clause, build_having_clause,
}

collect_binds-Client :
    {Json A : Type 0} (f : A → Builder Json) (xs : List A) (b : Binds Json)
    → ((x : A) (b : Binds Json) → Client (f x b))
    → Client (collect_binds f xs b)
collect_binds-Client f [] b h = tt
collect_binds-Client f (x ∷ xs) b h = chain-Client (f x b) _ (h x b) (λ (s, b1) e.
    chain-Client (collect_binds f xs b1) _ (collect_binds-Client f xs b1 h) (λ r d. tt))

module _ {Json : Type 0} (as_array : Json → Option (List Json)) where
  condition-Client :
      (expr : Sql) (op : FilterOperator) (value : Json) (b : Binds Json)
      → Client (build_condition_sql as_array expr op value b)
  unfolding build_condition_sql
  condition-Client expr is_null value b = tt
  condition-Client expr is_not_null value b = tt
  condition-Client expr in_list value b =
      chain-Client (ok_or _ (as_array value)) _ (ok_or-Client _ (as_array value) tt) (λ arr e. tt)
  condition-Client expr not_in value b =
      chain-Client (ok_or _ (as_array value)) _ (ok_or-Client _ (as_array value) tt) (λ arr e. tt)
  condition-Client expr eq value b = tt
  condition-Client expr neq value b = tt
  condition-Client expr gt value b = tt
  condition-Client expr gte value b = tt
  condition-Client expr lt value b = tt
  condition-Client expr lte value b = tt

  agg_expr-Client : (agg : StatsAggregation) (r : ResolvedField) → Client (agg_expr agg r)
  agg_expr-Client agg (physical_field a c) = tt
  agg_expr-Client agg (computed_field e) = tt

  module _ (root : String) (m : AliasMap) where
    filters-Client :
        (fs : List (StatsFilter Json)) (b : Binds Json)
        → Client (build_filter_conditions as_array root m fs b)
    unfolding build_filter_conditions filter_condition
    filters-Client fs b = collect_binds-Client (filter_condition as_array root m) fs b (λ f b1.
        chain-Client (resolve_field f.field root m) _ (resolve_field-Client f.field root m)
          (λ r e. condition-Client (sql_expr r) f.op f.value b1))

    having-Client :
        (aggregations : List StatsAggregation) (h : HavingFilter Json) (b : Binds Json)
        → Client (having_condition as_array root m aggregations h b)
    unfolding having_condition
    having-Client aggregations h b =
        chain-Client (ok_or _ (select_first (λ a. str_eq a.alias h.field) aggregations)) _
          (ok_or-Client _ (select_first (λ a. str_eq a.alias h.field) aggregations) tt)
          (λ agg d.
            chain-Client (resolve_field agg.field root m) _ (resolve_field-Client agg.field root m)
              (λ r e.
                chain-Client (agg_expr agg r) _ (agg_expr-Client agg r)
                  (λ expr g. condition-Client expr h.op h.value b)))

    group-Client :
        (fs : List (StatsFilter Json)) (b : Binds Json)
        → Client (group_condition as_array root m fs b)
    unfolding group_condition
    group-Client [] b = tt
    group-Client (f ∷ fs) b =
        chain-Client (build_filter_conditions as_array root m (f ∷ fs) b) _
          (filters-Client (f ∷ fs) b) (λ r e. tt)

    filters_part-Client :
        (fs : List (StatsFilter Json)) (b : Binds Json) → Client (filters_part as_array root m fs b)
    unfolding filters_part
    filters_part-Client [] b = tt
    filters_part-Client (f ∷ fs) b =
        chain-Client (build_filter_conditions as_array root m (f ∷ fs) b) _
          (filters-Client (f ∷ fs) b) (λ r e. tt)

    groups_part-Client :
        (gs : List (List (StatsFilter Json))) (b : Binds Json)
        → Client (groups_part as_array root m gs b)
    unfolding groups_part
    groups_part-Client [] b = tt
    groups_part-Client (g ∷ gs) b =
        chain-Client (collect_binds (group_condition as_array root m) (g ∷ gs) b) _
          (collect_binds-Client (group_condition as_array root m) (g ∷ gs) b group-Client)
          (λ r e. tt)

    pub where-Client :
        (query : StatsBuilderBody Json) (b : Binds Json)
        → Client (build_where_clause as_array root m query b)
    unfolding build_where_clause
    where-Client query b =
        chain-Client (filters_part as_array root m query.filters b) _
          (filters_part-Client query.filters b)
          (λ (fs, b1) e.
            chain-Client (groups_part as_array root m query.filter_groups b1) _
              (groups_part-Client query.filter_groups b1) (λ r d. tt))

    pub having_clause-Client :
        (aggregations : List StatsAggregation) (hs : List (HavingFilter Json)) (b : Binds Json)
        → Client (build_having_clause as_array root m aggregations hs b)
    unfolding build_having_clause build_having_conditions
    having_clause-Client aggregations [] b = tt
    having_clause-Client aggregations (h ∷ hs) b =
        chain-Client (collect_binds (having_condition as_array root m aggregations) (h ∷ hs) b) _
          (collect_binds-Client (having_condition as_array root m aggregations) (h ∷ hs) b
            (having-Client aggregations))
          (λ r e. tt)
