-- ===== src/Stats/Builder/Errors.antt =====
-- The internal errors of `build_sql` are out of reach (src/services/stats/query_builder.rs).
use elidune_server.Prelude.{◌≡◌, subst, String, Option, none, some, List, [], ◌∷◌, ◌++◌}
use elidune_server.Prelude.Table.{exists_where}
use elidune_server.Error.{AppError, ok, err, ok_or, fail_if}
use elidune_server.Stats.Body.{StatsBuilderBody, TimeBucket, GroupByField, StatsAggregation}
use elidune_server.Stats.Schema.{schema, get, EntityDef}
use elidune_server.Stats.Sql.{Sql}
use elidune_server.Stats.Chain.{◌>>=◌, collect, chain_ok}
use elidune_server.Stats.Chain.Client.{
  IsClient, Client, chain-Client, collect-Client, ok_or-Client, fail_if-Client, if_ok-Client,
  Client-err,
}
use elidune_server.Stats.Union.{
  validate_union_branches, validate_union_field_usage, iter_stats_field_paths,
  field_references_union_source, has_duplicate, is_empty,
}
use elidune_server.Stats.JoinGraph.{
  AliasMap, ResolvedField, physical_field, computed_field, resolve_field, resolve_joins,
}
use elidune_server.Stats.JoinGraph.Client.{resolve_field-Client, resolve_joins-Client}
use elidune_server.Stats.Conditions.{build_where_clause, build_having_clause}
use elidune_server.Stats.Conditions.Client.{where-Client, having_clause-Client}
use elidune_server.Stats.Builder.{
  bucket_text, aggregation_text, select_part, bucket_parts, aggregation_part, group_part,
  bucket_group, bucket_groups, build_group_by_clause, union_branch, build_union_from_clause,
  from_clause, select_clause_of, build_select, build_core, build_sql,
}

branches-Client :
    (entity : String) (peers : List String) → Client (validate_union_branches entity peers)
unfolding validate_union_branches
branches-Client entity [] = tt
branches-Client entity (peer ∷ peers) =
    chain-Client (fail_if (has_duplicate (entity ∷ peer ∷ peers)) _) _
      (fail_if-Client (has_duplicate (entity ∷ peer ∷ peers)) _ tt) (λ u e. fail_if-Client _ _ tt)

module _ {Json : Type 0} (query : StatsBuilderBody Json) where
  usage-Client : Client (validate_union_field_usage query)
  unfolding validate_union_field_usage
  usage-Client =
      chain-Client (validate_union_branches query.entity query.union_with) _
        (branches-Client query.entity query.union_with)
        (λ u e. if_ok-Client (is_empty query.union_with) _ (
          fail_if-Client (exists_where field_references_union_source (iter_stats_field_paths query))
            _ tt))

module _ (root : String) (m : AliasMap) where
  bucket_parts-Client : (tb : Option TimeBucket) → Client (bucket_parts root m tb)
  unfolding bucket_parts
  bucket_parts-Client none = tt
  bucket_parts-Client (some tb) =
      chain-Client (resolve_field tb.field root m) _ (resolve_field-Client tb.field root m)
        (λ r e. chain-Client (bucket_text tb r) _ (bucket_text-Client tb r) (λ s d. tt))
    where
      bucket_text-Client : (tb : TimeBucket) (r : ResolvedField) → Client (bucket_text tb r)
      bucket_text-Client tb (physical_field a c) = tt
      bucket_text-Client tb (computed_field e) = tt

  aggregation-Client : (agg : StatsAggregation) → Client (aggregation_part root m agg)
  unfolding aggregation_part
  aggregation-Client agg =
      chain-Client (resolve_field agg.field root m) _ (resolve_field-Client agg.field root m)
        (λ r e. aggregation_text-Client r)
    where
      aggregation_text-Client : (r : ResolvedField) → Client (aggregation_text agg r)
      aggregation_text-Client (physical_field a c) = tt
      aggregation_text-Client (computed_field e) = tt

  -- After the SELECT part of a time bucket, its GROUP BY part meets a physical column.
  bucket_groups-Client :
      (tb : Option TimeBucket) (bs parts : List Sql)
      → bucket_parts root m tb ≡ ok bs
      → Client (bucket_groups root m tb parts)
  unfolding bucket_parts bucket_groups
  bucket_groups-Client none bs parts h = tt
  bucket_groups-Client (some tb) bs parts h =
      chain-Client (resolve_field tb.field root m) _ (resolve_field-Client tb.field root m) (λ r e.
        physical-Client r (
          subst (λ x. (x >>= λ resolved. bucket_text tb resolved >>= λ s. ok (s ∷ [])) ≡ ok bs) e
            h))
    where
      physical-Client :
          (r : ResolvedField)
          → (bucket_text tb r >>= λ s. ok (s ∷ [])) ≡ ok bs
          → Client (bucket_group tb parts r)
      physical-Client (physical_field a c) e = tt
      physical-Client (computed_field x) e = cc

  groups-Client :
      (group_by : List GroupByField) (tb : Option TimeBucket) (bs : List Sql)
      → bucket_parts root m tb ≡ ok bs
      → Client (build_group_by_clause root m group_by tb)
  unfolding build_group_by_clause group_part
  groups-Client group_by tb bs h =
      chain-Client (collect (group_part root m) group_by) _
        (collect-Client (group_part root m) group_by (λ g.
          chain-Client (resolve_field g.field root m) _ (resolve_field-Client g.field root m)
            (λ r d. tt)))
        (λ parts d.
          chain-Client (bucket_groups root m tb parts) _ (bucket_groups-Client tb bs parts h)
            (λ all e. tt))

select_clause-Client : (ps : List Sql) → Client (select_clause_of ps)
select_clause-Client [] = tt
select_clause-Client (p ∷ ps) = tt

from-Client :
    (def : EntityDef) (entity : String) (peers : List String)
    → Client (from_clause def entity peers)
unfolding from_clause build_union_from_clause union_branch
from-Client def entity [] = tt
from-Client def entity (peer ∷ peers) =
    chain-Client (collect union_branch (entity ∷ peer ∷ peers)) _
      (collect-Client union_branch (entity ∷ peer ∷ peers) (λ name.
        chain-Client (ok_or _ (get name schema)) _ (ok_or-Client _ (get name schema) tt)
          (λ d e. tt)))
      (λ parts e. tt)

module _ {Json : Type 0} (query : StatsBuilderBody Json) (m : AliasMap) where
  select-Client : Client (build_select query m)
  unfolding build_select select_part
  select-Client =
      chain-Client (collect (select_part query.entity m) query.select) _
        (collect-Client (select_part query.entity m) query.select (λ s.
          chain-Client (resolve_field s.field query.entity m) _
            (resolve_field-Client s.field query.entity m) (λ r e. tt)))
        (λ ss d.
          chain-Client (bucket_parts query.entity m query.time_bucket) _
            (bucket_parts-Client query.entity m query.time_bucket)
            (λ bs e.
              chain-Client (collect (aggregation_part query.entity m) query.aggregations) _
                (collect-Client (aggregation_part query.entity m) query.aggregations
                  (aggregation-Client query.entity m))
                (λ ags f. select_clause-Client (ss ++ bs ++ ags))))

  select_bucket :
      (sel : Sql)
      → build_select query m ≡ ok sel
      → (bs : List Sql) × (bucket_parts query.entity m query.time_bucket ≡ ok bs)
  unfolding build_select
  select_bucket sel h =
      let (ss, d, k) = chain_ok (collect (select_part query.entity m) query.select) _ sel h in
      let (bs, e, l) = chain_ok (bucket_parts query.entity m query.time_bucket) _ sel k in (bs, e)

module _ {Json : Type 0} (as_array : Json → Option (List Json)) where
  core-Client :
      (query : StatsBuilderBody Json) (m : AliasMap) (sel from : Sql)
      → build_select query m ≡ ok sel
      → Client (build_core as_array query m sel from)
  unfolding build_core
  core-Client query m sel from h =
      let (bs, e) = select_bucket query m sel h in
      chain-Client
        (build_where_clause as_array query.entity m query record { binds = []; bind_idx = 1 }) _
        (where-Client as_array query.entity m query record { binds = []; bind_idx = 1 })
        (λ (wheres, b1) f.
          chain-Client (build_group_by_clause query.entity m query.group_by query.time_bucket) _
            (groups-Client query.entity m query.group_by query.time_bucket bs e)
            (λ groups g.
              chain-Client
                (build_having_clause as_array query.entity m query.aggregations query.having b1) _
                (having_clause-Client as_array query.entity m query.aggregations query.having b1)
                (λ r k. tt)))

  build_sql-Client : (query : StatsBuilderBody Json) → Client (build_sql as_array query)
  unfolding build_sql
  build_sql-Client query =
      chain-Client (validate_union_field_usage query) _ (usage-Client query) (λ u d.
        chain-Client (ok_or _ (get query.entity schema)) _
          (ok_or-Client _ (get query.entity schema) tt)
          (λ entity e.
            chain-Client (resolve_joins query.entity query.joins) _
              (resolve_joins-Client query.entity query.joins)
              (λ m f. chain-Client (build_select query m) _ (select-Client query m) (λ sel g.
                chain-Client (from_clause entity query.entity query.union_with) _
                  (from-Client entity query.entity query.union_with)
                  (λ from h.
                    chain-Client (build_core as_array query m sel from) _
                      (core-Client query m sel from g) (λ r k. tt))))))

  -- A query that cannot be built is refused with an error that is not internal: the code's internal
  -- errors, for an operator and for a time bucket on a computed field, are out of reach.
  pub build_sql-IsClient :
      (query : StatsBuilderBody Json) (e : AppError) → build_sql as_array query ≡ err e → IsClient e
  build_sql-IsClient query e h = Client-err (build_sql as_array query) e (build_sql-Client query) h
