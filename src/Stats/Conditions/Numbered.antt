-- ===== src/Stats/Conditions/Numbered.antt =====
-- The placeholders of WHERE and HAVING number the bind values (src/services/stats/query_builder.rs).
use elidune_server.Prelude.{
  ℕ, ◌+◌, ◌≡◌, refl, ap, ◌∙◌, String, str_eq, Option, List, [], ◌∷◌, ◌++◌, arith,
}
use mathlib.Core.List.{append-nil}
use elidune_server.Prelude.Table.{length, length-append, select_first}
use elidune_server.Error.{ok_or, validation, literal}
use elidune_server.Stats.Body.{
  StatsBuilderBody, StatsFilter, HavingFilter, StatsAggregation, FilterOperator, eq, neq, gt, gte,
  lt, lte, in_list, not_in, is_null, is_not_null, AggregateFunction, count, count_distinct, sum,
  avg, min, max,
}
use elidune_server.Stats.Sql.{Sql, raw, param, join, placeholders, all_placeholders, numbers_from}
use elidune_server.Stats.Sql.Placeholders.{
  placeholders-append, placeholders-join, all_placeholders-append, numbers_from-add,
}
use elidune_server.Stats.Chain.{Yields, chain-Yields, reading}
use elidune_server.Stats.JoinGraph.{
  AliasMap, ResolvedField, physical_field, computed_field, sql_expr, resolve_field,
}
use elidune_server.Stats.Conditions.{
  Binds, build_agg_expr, push, Builder, bind_array, build_comparison, op_str, collect_binds,
  build_list_condition, build_condition_sql, filter_condition, build_filter_conditions,
  group_condition, agg_expr, having_condition, build_having_conditions, filters_part, groups_part,
  where_text, build_where_clause, build_having_clause,
}

module _ {Json : Type 0} where
  -- From b to b', as many values are pushed as there are placeholders, which number them.
  abbrev pub Pushes : Binds Json → List ℕ → Binds Json → Type 0
  Pushes b ns b' =
      (n : ℕ) × (ns ≡ numbers_from b.bind_idx n)
      × (b'.bind_idx ≡ b.bind_idx + n)
      × (length b'.binds ≡ length b.binds + n)

  pub Pushes-none : (b : Binds Json) → Pushes b [] b
  Pushes-none b = (0, refl, omega arith, omega arith)

  pub Pushes-append :
      (b b1 b2 : Binds Json) (ns ms : List ℕ)
      → Pushes b ns b1
      → Pushes b1 ms b2
      → Pushes b (ns ++ ms) b2
  Pushes-append b b1 b2 ns ms (n, en, i, l) (m, em, j, k) =
      (n + m, rw (en, em, i, numbers_from-add b.bind_idx n m) refl, omega arith, omega arith)

  pub push-Pushes : (v : Json) (b : Binds Json) → Pushes b (b.bind_idx ∷ []) (push v b)
  push-Pushes v b = (1, refl, omega arith, length-append b.binds (v ∷ []))

  pub bind_array-Pushes :
      (vs : List Json) (b : Binds Json)
      → Pushes b (all_placeholders (bind_array vs b).0) (bind_array vs b).1
  bind_array-Pushes [] b = Pushes-none b
  bind_array-Pushes (v ∷ vs) b =
      let rest = bind_array vs (push v b) in
      Pushes-append b (push v b) rest.1 (b.bind_idx ∷ []) (all_placeholders rest.0)
        (push-Pushes v b) (bind_array-Pushes vs (push v b))

  -- The placeholders of a text number the values pushed while it was built.
  abbrev pub Numbered : Binds Json → Sql × Binds Json → Type 0
  Numbered b (s, b') = Pushes b (placeholders s) b'

  abbrev pub NumberedList : Binds Json → List Sql × Binds Json → Type 0
  NumberedList b (ss, b') = Pushes b (all_placeholders ss) b'

  pub collect_binds-Numbered :
      {A : Type 0} (f : A → Builder Json) (xs : List A) (b : Binds Json)
      → ((x : A) (b : Binds Json) → Yields (Numbered b) (f x b))
      → Yields (NumberedList b) (collect_binds f xs b)
  collect_binds-Numbered f [] b h = Pushes-none b
  collect_binds-Numbered f (x ∷ xs) b h =
      chain-Yields (Numbered b) (NumberedList b) (f x b) _ (h x b) (λ (s, b1) p.
        chain-Yields (NumberedList b1) (NumberedList b) (collect_binds f xs b1) _
          (collect_binds-Numbered f xs b1 h)
          (λ (ss, b2) q. Pushes-append b b1 b2 (placeholders s) (all_placeholders ss) p q))

-- A text around joined texts: their placeholders and no other.
framed :
    (start separator finish : String) (ss : List Sql)
    → placeholders (raw start ∷ join separator ss ++ raw finish ∷ []) ≡ all_placeholders ss
framed start separator finish ss =
    placeholders-append (join separator ss) (raw finish ∷ [])
    ∙ append-nil (placeholders (join separator ss))
    ∙ placeholders-join separator ss

pub plain-append : (s t : Sql) → placeholders s ≡ [] → placeholders (s ++ t) ≡ placeholders t
plain-append s t e = placeholders-append s t ∙ ap (λ ns. ns ++ placeholders t) e

pub sql_expr-plain : (r : ResolvedField) → placeholders (sql_expr r) ≡ []
sql_expr-plain (physical_field a c) = refl
sql_expr-plain (computed_field e) = refl

pub build_agg_expr-plain :
    (f : AggregateFunction) (alias col : String) → placeholders (build_agg_expr f alias col) ≡ []
build_agg_expr-plain count alias col = refl
build_agg_expr-plain count_distinct alias col = refl
build_agg_expr-plain sum alias col = refl
build_agg_expr-plain avg alias col = refl
build_agg_expr-plain min alias col = refl
build_agg_expr-plain max alias col = refl

module _ {Json : Type 0} where
  pub retext : (b b1 : Binds Json) (ns ms : List ℕ) → ns ≡ ms → Pushes b ms b1 → Pushes b ns b1
  retext b b1 ns ms e h = rw e h

  comparison-Numbered :
      (expr : Sql) (op : FilterOperator) (value : Json) (b : Binds Json)
      → placeholders expr ≡ []
      → Yields (Numbered b) (build_comparison expr op value b)
  comparison-Numbered expr op value b plain = reading (Numbered b) (op_str op) _ (λ o.
      retext b (push value b) _ (b.bind_idx ∷ [])
        (plain-append expr (raw " " ∷ raw o ∷ raw " " ∷ param b.bind_idx ∷ []) plain)
        (push-Pushes value b))

module _ {Json : Type 0} (as_array : Json → Option (List Json)) where
  list_condition-Numbered :
      (expr : Sql) (kw : String) (value : Json) (b : Binds Json)
      → placeholders expr ≡ []
      → Yields (Numbered b) (build_list_condition as_array expr kw value b)
  list_condition-Numbered expr kw value b plain =
      reading (Numbered b)
        (ok_or (validation (literal "Operator 'in' / 'notIn' expects a JSON array value"))
          (as_array value))
        _
        (λ arr.
          retext b (bind_array arr b).1 _ (all_placeholders (bind_array arr b).0)
            (plain-append expr
                (raw " " ∷ raw kw ∷ raw " (" ∷ join ", " (bind_array arr b).0 ++ raw ")" ∷ []) plain
              ∙ framed " (" ", " ")" (bind_array arr b).0)
            (bind_array-Pushes arr b))

  condition-Numbered :
      (expr : Sql) (op : FilterOperator) (value : Json) (b : Binds Json)
      → placeholders expr ≡ []
      → Yields (Numbered b) (build_condition_sql as_array expr op value b)
  unfolding build_condition_sql
  condition-Numbered expr is_null value b plain =
      retext b b _ [] (plain-append expr (raw " IS NULL" ∷ []) plain) (Pushes-none b)
  condition-Numbered expr is_not_null value b plain =
      retext b b _ [] (plain-append expr (raw " IS NOT NULL" ∷ []) plain) (Pushes-none b)
  condition-Numbered expr in_list value b plain = list_condition-Numbered expr "IN" value b plain
  condition-Numbered expr not_in value b plain = list_condition-Numbered expr "NOT IN" value b plain
  condition-Numbered expr eq value b plain = comparison-Numbered expr eq value b plain
  condition-Numbered expr neq value b plain = comparison-Numbered expr neq value b plain
  condition-Numbered expr gt value b plain = comparison-Numbered expr gt value b plain
  condition-Numbered expr gte value b plain = comparison-Numbered expr gte value b plain
  condition-Numbered expr lt value b plain = comparison-Numbered expr lt value b plain
  condition-Numbered expr lte value b plain = comparison-Numbered expr lte value b plain

  module _ (root_entity : String) (alias_map : AliasMap) where
    filters-Numbered :
        (fs : List (StatsFilter Json)) (b : Binds Json)
        → Yields (NumberedList b) (build_filter_conditions as_array root_entity alias_map fs b)
    unfolding build_filter_conditions filter_condition
    filters-Numbered fs b =
        collect_binds-Numbered (filter_condition as_array root_entity alias_map) fs b (λ f b1.
          reading (Numbered b1) (resolve_field f.field root_entity alias_map) _
            (λ r. condition-Numbered (sql_expr r) f.op f.value b1 (sql_expr-plain r)))

    agg_expr-plain :
        (r : ResolvedField) (agg : StatsAggregation)
        → Yields (λ s. placeholders s ≡ []) (agg_expr agg r)
    agg_expr-plain (physical_field alias column) agg =
        build_agg_expr-plain agg.function alias column
    agg_expr-plain (computed_field expression) agg = tt

    having-Numbered :
        (aggregations : List StatsAggregation) (h : HavingFilter Json) (b : Binds Json)
        → Yields (Numbered b) (having_condition as_array root_entity alias_map aggregations h b)
    unfolding having_condition
    having-Numbered aggregations h b =
        reading (Numbered b) (ok_or _ (select_first (λ a. str_eq a.alias h.field) aggregations)) _
          (λ agg. reading (Numbered b) (resolve_field agg.field root_entity alias_map) _ (λ r.
            chain-Yields (λ s. placeholders s ≡ []) (Numbered b) (agg_expr agg r) _
              (agg_expr-plain r agg) (λ s plain. condition-Numbered s h.op h.value b plain)))

    group-Numbered :
        (fs : List (StatsFilter Json)) (b : Binds Json)
        → Yields (Numbered b) (group_condition as_array root_entity alias_map fs b)
    unfolding group_condition
    group-Numbered [] b = tt
    group-Numbered (f ∷ fs) b =
        chain-Yields (NumberedList b) (Numbered b)
          (build_filter_conditions as_array root_entity alias_map (f ∷ fs) b) _
          (filters-Numbered (f ∷ fs) b)
          (λ (inner, b1). retext b b1 _ (all_placeholders inner) (framed "(" " AND " ")" inner))

    filters_part-Numbered :
        (fs : List (StatsFilter Json)) (b : Binds Json)
        → Yields (NumberedList b) (filters_part as_array root_entity alias_map fs b)
    unfolding filters_part
    filters_part-Numbered [] b = Pushes-none b
    filters_part-Numbered (f ∷ fs) b =
        chain-Yields (NumberedList b) (NumberedList b)
          (build_filter_conditions as_array root_entity alias_map (f ∷ fs) b) _
          (filters-Numbered (f ∷ fs) b)
          (λ (inner, b1).
            retext b b1 _ (all_placeholders inner) (append-nil _ ∙ framed "(" " AND " ")" inner))

    groups_part-Numbered :
        (gs : List (List (StatsFilter Json))) (b : Binds Json)
        → Yields (NumberedList b) (groups_part as_array root_entity alias_map gs b)
    unfolding groups_part
    groups_part-Numbered [] b = Pushes-none b
    groups_part-Numbered (g ∷ gs) b =
        chain-Yields (NumberedList b) (NumberedList b)
          (collect_binds (group_condition as_array root_entity alias_map) (g ∷ gs) b) _
          (collect_binds-Numbered (group_condition as_array root_entity alias_map) (g ∷ gs) b
            group-Numbered)
          (λ (inner, b1).
            retext b b1 _ (all_placeholders inner) (append-nil _ ∙ framed "(" " OR " ")" inner))

    placeholders-where_text : (ps : List Sql) → placeholders (where_text ps) ≡ all_placeholders ps
    placeholders-where_text [] = refl
    placeholders-where_text (p ∷ ps) = placeholders-join " AND " (p ∷ ps)

    pub where-Numbered :
        (query : StatsBuilderBody Json) (b : Binds Json)
        → Yields (Numbered b) (build_where_clause as_array root_entity alias_map query b)
    unfolding build_where_clause
    where-Numbered query b =
        chain-Yields (NumberedList b) (Numbered b)
          (filters_part as_array root_entity alias_map query.filters b) _
          (filters_part-Numbered query.filters b)
          (λ (fs, b1) p.
            chain-Yields (NumberedList b1) (Numbered b)
              (groups_part as_array root_entity alias_map query.filter_groups b1) _
              (groups_part-Numbered query.filter_groups b1)
              (λ (gs, b2) q.
                retext b b2 _ (all_placeholders fs ++ all_placeholders gs)
                  (placeholders-where_text (fs ++ gs) ∙ all_placeholders-append fs gs)
                  (Pushes-append b b1 b2 (all_placeholders fs) (all_placeholders gs) p q)))

    pub having_clause-Numbered :
        (aggregations : List StatsAggregation) (hs : List (HavingFilter Json)) (b : Binds Json)
        → Yields (Numbered b) (build_having_clause as_array root_entity alias_map aggregations hs b)
    unfolding build_having_clause build_having_conditions
    having_clause-Numbered aggregations [] b = Pushes-none b
    having_clause-Numbered aggregations (h ∷ hs) b =
        chain-Yields (NumberedList b) (Numbered b)
          (collect_binds (having_condition as_array root_entity alias_map aggregations) (h ∷ hs) b)
          _
          (collect_binds-Numbered (having_condition as_array root_entity alias_map aggregations)
            (h ∷ hs) b (having-Numbered aggregations))
          (λ (inner, b1). retext b b1 _ (all_placeholders inner) (placeholders-join " AND " inner))
