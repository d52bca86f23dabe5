-- ===== src/Stats/Builder/Plain.antt =====
-- The clauses of `build_sql` without conditions have no placeholder.
use elidune_server.Prelude.{
  ◌≡◌, refl, ◌∙◌, String, str_eq, Bool-cases, inl, inr, Option, none, some, List, [], ◌∷◌, ◌++◌,
  map,
}
use elidune_server.Prelude.Table.{exists_where}
use elidune_server.Error.{Result, ok_or}
use elidune_server.Stats.Body.{
  StatsBuilderBody, StatsOrderBy, SelectField, GroupByField, StatsAggregation, TimeBucket,
}
use elidune_server.Stats.Schema.{schema, get, EntityDef}
use elidune_server.Stats.Sql.{Sql, raw, join, placeholders, all_placeholders, text_of}
use elidune_server.Stats.Sql.Placeholders.{placeholders-join, all_placeholders-append}
use elidune_server.Stats.Chain.{collect, Yields, chain-Yields, reading}
use elidune_server.Stats.JoinGraph.{
  AliasMap, ResolvedField, physical_field, computed_field, resolve_field, emit_join_sql, join_sql,
  JoinNode, JoinOn,
}
use elidune_server.Stats.Conditions.{build_agg_expr}
use elidune_server.Stats.Conditions.Numbered.{sql_expr-plain, build_agg_expr-plain, plain-append}
use elidune_server.Stats.Builder.{
  unwrap_or, granularity_to_pg, date_trunc, select_text, bucket_text, aggregation_text, select_part,
  bucket_parts, aggregation_part, group_part, bucket_group, group_text, bucket_groups,
  build_group_by_clause, union_branch, build_union_from_clause, from_clause, order_part,
  order_by_clause, select_clause_of, build_select,
}

unfoldable pub Plain : Sql → Type 0
Plain s = placeholders s ≡ []

unfoldable pub AllPlain : List Sql → Type 0
AllPlain ss = all_placeholders ss ≡ []

pub Plain-pair : (s t : Sql) → Plain s → Plain t → Plain (s ++ t)
unfolding Plain
Plain-pair s t p q = plain-append s t p ∙ q

pub Plain-list : (s : Sql) (ss : List Sql) → Plain s → AllPlain ss → AllPlain (s ∷ ss)
unfolding Plain AllPlain
Plain-list s ss p q = rw (p, q) refl

pub append-AllPlain : (ss ts : List Sql) → AllPlain ss → AllPlain ts → AllPlain (ss ++ ts)
unfolding AllPlain
append-AllPlain ss ts p q = rw (all_placeholders-append ss ts, p, q) refl

pub join-Plain : (separator : String) (ss : List Sql) → AllPlain ss → Plain (join separator ss)
unfolding Plain AllPlain
join-Plain separator ss p = placeholders-join separator ss ∙ p

pub collect-Plain :
    {A : Type 0} (f : A → Result Sql) (xs : List A)
    → ((x : A) → Yields Plain (f x))
    → Yields AllPlain (collect f xs)
unfolding AllPlain
collect-Plain f [] h = refl
collect-Plain f (x ∷ xs) h = chain-Yields Plain AllPlain (f x) _ (h x) (λ s p.
    chain-Yields AllPlain AllPlain (collect f xs) _ (collect-Plain f xs h)
      (λ ss q. Plain-list s ss p q))

pub join_sql-Plain : (node : JoinNode) (on : Option JoinOn) → Plain (join_sql node on)
unfolding Plain
join_sql-Plain node none = refl
join_sql-Plain node (some on) = refl

pub joins-Plain : (m : AliasMap) → Plain (emit_join_sql m)
unfolding Plain
joins-Plain [] = refl
joins-Plain ((path, node) ∷ m) =
    Plain-pair (join_sql node node.join_on) (emit_join_sql m) (join_sql-Plain node node.join_on)
      (joins-Plain m)

pub order-Plain : (obs : List StatsOrderBy) → AllPlain (map order_part obs)
unfolding AllPlain
order-Plain [] = refl
order-Plain (ob ∷ obs) = order-Plain obs

pub order_by-Plain : (obs : List StatsOrderBy) → Plain (order_by_clause obs)
unfolding Plain
order_by-Plain [] = refl
order_by-Plain (ob ∷ obs) = join-Plain ", " (map order_part (ob ∷ obs)) (order-Plain (ob ∷ obs))

pub group_text-Plain : (ps : List Sql) → AllPlain ps → Plain (group_text ps)
unfolding Plain
group_text-Plain [] h = refl
group_text-Plain (p ∷ ps) h = join-Plain ", " (p ∷ ps) h

pub select_clause-Plain : (ps : List Sql) → AllPlain ps → Yields Plain (select_clause_of ps)
select_clause-Plain [] h = tt
select_clause-Plain (p ∷ ps) h = join-Plain ", " (p ∷ ps) h

pub select_text-Plain : (alias : String) (r : ResolvedField) → Plain (select_text alias r)
unfolding Plain
select_text-Plain alias (physical_field a c) = refl
select_text-Plain alias (computed_field e) = refl

pub bucket_text-Plain : (tb : TimeBucket) (r : ResolvedField) → Yields Plain (bucket_text tb r)
unfolding Plain
bucket_text-Plain tb (physical_field a c) = refl
bucket_text-Plain tb (computed_field e) = tt

pub aggregation_text-Plain :
    (agg : StatsAggregation) (r : ResolvedField) → Yields Plain (aggregation_text agg r)
unfolding Plain
aggregation_text-Plain agg (physical_field a c) =
    plain-append (build_agg_expr agg.function a c) _ (build_agg_expr-plain agg.function a c)
aggregation_text-Plain agg (computed_field e) = tt

pub bucket_group-Plain :
    (tb : TimeBucket) (parts : List Sql) (r : ResolvedField)
    → AllPlain parts
    → Yields AllPlain (bucket_group tb parts r)
unfolding AllPlain
bucket_group-Plain tb parts (physical_field a c) h =
    elim (Bool-cases (
      exists_where
        (λ s. str_eq (text_of s) (text_of (date_trunc (granularity_to_pg tb.granularity) a c)))
        parts)) [
          | inl e ↦ rw e h
          | inr e ↦ rw e (
              append-AllPlain parts (date_trunc (granularity_to_pg tb.granularity) a c ∷ []) h refl)
        ]
bucket_group-Plain tb parts (computed_field e) h = tt

pub union-Plain :
    (entity : String) (peers : List String) → Yields Plain (build_union_from_clause entity peers)
unfolding build_union_from_clause union_branch Plain
union-Plain entity peers =
    chain-Yields AllPlain Plain (collect union_branch (entity ∷ peers)) _
      (collect-Plain union_branch (entity ∷ peers)
        (λ name. reading Plain (ok_or _ (get name schema)) _ (λ def. refl)))
      (λ parts h.
        Plain-pair (raw "(" ∷ join " UNION ALL " parts) _ (join-Plain " UNION ALL " parts h) refl)

pub from-Plain :
    (def : EntityDef) (entity : String) (peers : List String)
    → Yields Plain (from_clause def entity peers)
unfolding from_clause Plain
from-Plain def entity [] = refl
from-Plain def entity (peer ∷ peers) = union-Plain entity (peer ∷ peers)

module _ (root_entity : String) (m : AliasMap) where
  pub select_part-Plain : (sf : SelectField) → Yields Plain (select_part root_entity m sf)
  unfolding select_part
  select_part-Plain sf =
      reading Plain (resolve_field sf.field root_entity m) _
        (λ r. select_text-Plain (unwrap_or sf.alias sf.field) r)

  pub bucket_parts-Plain :
      (tb : Option TimeBucket) → Yields AllPlain (bucket_parts root_entity m tb)
  unfolding bucket_parts AllPlain
  bucket_parts-Plain none = refl
  bucket_parts-Plain (some tb) = reading AllPlain (resolve_field tb.field root_entity m) _ (λ r.
      chain-Yields Plain AllPlain (bucket_text tb r) _ (bucket_text-Plain tb r)
        (λ s p. Plain-list s [] p refl))

  pub aggregation_part-Plain :
      (agg : StatsAggregation) → Yields Plain (aggregation_part root_entity m agg)
  unfolding aggregation_part
  aggregation_part-Plain agg =
      reading Plain (resolve_field agg.field root_entity m) _ (λ r. aggregation_text-Plain agg r)

  bucket_groups-Plain :
      (tb : Option TimeBucket) (parts : List Sql)
      → AllPlain parts
      → Yields AllPlain (bucket_groups root_entity m tb parts)
  unfolding bucket_groups
  bucket_groups-Plain none parts h = h
  bucket_groups-Plain (some tb) parts h =
      reading AllPlain (resolve_field tb.field root_entity m) _
        (λ r. bucket_group-Plain tb parts r h)

  pub groups-Plain :
      (group_by : List GroupByField) (tb : Option TimeBucket)
      → Yields Plain (build_group_by_clause root_entity m group_by tb)
  unfolding build_group_by_clause group_part Plain
  groups-Plain group_by tb =
      chain-Yields AllPlain Plain (collect (group_part root_entity m) group_by) _
        (collect-Plain (group_part root_entity m) group_by
          (λ g. reading Plain (resolve_field g.field root_entity m) _ (λ r. sql_expr-plain r)))
        (λ parts h.
          chain-Yields AllPlain Plain (bucket_groups root_entity m tb parts) _
            (bucket_groups-Plain tb parts h) (λ all k. group_text-Plain all k))

pub select-Plain :
    {Json : Type 0} (query : StatsBuilderBody Json) (m : AliasMap)
    → Yields Plain (build_select query m)
unfolding build_select
select-Plain query m =
    chain-Yields AllPlain Plain (collect (select_part query.entity m) query.select) _
      (collect-Plain _ query.select (select_part-Plain query.entity m))
      (λ ss p.
        chain-Yields AllPlain Plain (bucket_parts query.entity m query.time_bucket) _
          (bucket_parts-Plain query.entity m query.time_bucket)
          (λ bs q.
            chain-Yields AllPlain Plain
              (collect (aggregation_part query.entity m) query.aggregations) _
              (collect-Plain _ query.aggregations (aggregation_part-Plain query.entity m))
              (λ ags r.
                select_clause-Plain (ss ++ bs ++ ags)
                  (append-AllPlain (ss ++ bs) ags (append-AllPlain ss bs p q) r))))
