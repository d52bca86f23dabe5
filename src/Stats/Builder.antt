-- ===== src/Stats/Builder.antt =====
-- `build_sql` (src/services/stats/query_builder.rs) and `run_stats_query` (builder.rs).
pub mod Plain
pub mod Numbers
pub mod Errors
use elidune_server.Prelude.{
  ℕ, suc, String, str_eq, Bool, true, false, if◌then◌else◌, leb, Option, none, some, List, [], ◌∷◌,
  ◌++◌, map,
}
use elidune_server.Prelude.Table.{exists_where}
use elidune_server.Error.{
  Result, ok, err, ok_or, bad_request, validation, internal, literal, unknown_entity,
  unknown_union_branch,
}
use elidune_server.Stats.Schema.{schema, get, EntityDef}
use elidune_server.Stats.Body.{
  StatsBuilderBody, SelectField, GroupByField, StatsAggregation, TimeBucket, TimeGranularity, day,
  week, month, quarter, year, SortDirection, asc, desc, StatsOrderBy,
}
use elidune_server.Stats.Sql.{Sql, raw, ident, number, join, text_of}
use elidune_server.Stats.Text.{replace_char, ◌<>◌}
use elidune_server.Stats.Chain.{◌>>=◌, ◌>>◌, collect}
use elidune_server.Stats.Union.{validate_union_field_usage}
use elidune_server.Stats.JoinGraph.{
  AliasMap, ResolvedField, physical_field, computed_field, sql_expr, resolve_field, resolve_joins,
  emit_join_sql,
}
use elidune_server.Stats.Conditions.{Binds, build_agg_expr, build_where_clause, build_having_clause}

pub record BuiltQuery (Json : Type 0) : Type 0 where
  pub data_sql : Sql
  pub count_sql : Sql
  pub binds : List Json

abbrev pub granularity_to_pg : TimeGranularity → String
granularity_to_pg day = "day"
granularity_to_pg week = "week"
granularity_to_pg month = "month"
granularity_to_pg quarter = "quarter"
granularity_to_pg year = "year"

abbrev pub unwrap_or {ℓ} : {A : Type ℓ} → Option A → A → A
unwrap_or none a = a
unwrap_or (some b) a = b

abbrev pub date_trunc : String → String → String → Sql
date_trunc trunc table_alias column =
    raw "DATE_TRUNC('"
    ∷ raw trunc
    ∷ raw "', "
    ∷ ident table_alias
    ∷ raw "."
    ∷ ident column
    ∷ raw ")"
    ∷ []

abbrev pub select_text : String → ResolvedField → Sql
select_text alias (physical_field table_alias column) =
    ident table_alias ∷ raw "." ∷ ident column ∷ raw " AS " ∷ ident alias ∷ []
select_text alias (computed_field expression) =
    raw "(" ∷ raw expression ∷ raw ") AS " ∷ ident alias ∷ []

abbrev pub bucket_alias : TimeBucket → String
bucket_alias tb =
    unwrap_or tb.alias (replace_char b'.' "_" tb.field <> ("_" <> granularity_to_pg tb.granularity))

abbrev pub bucket_text : TimeBucket → ResolvedField → Result Sql
bucket_text tb (physical_field table_alias column) = ok (
    date_trunc (granularity_to_pg tb.granularity) table_alias column
    ++ raw " AS " ∷ ident (bucket_alias tb) ∷ [])
bucket_text tb (computed_field expression) = err (
    validation
      (literal "timeBucket cannot use a computed field; use a physical date/timestamptz column"))

abbrev pub aggregation_text : StatsAggregation → ResolvedField → Result Sql
aggregation_text agg (physical_field table_alias column) =
    ok (build_agg_expr agg.function table_alias column ++ raw " AS " ∷ ident agg.alias ∷ [])
aggregation_text agg (computed_field expression) =
    err (validation (literal "aggregations cannot use computed fields; use a physical column"))

abbrev pub bucket_group : TimeBucket → List Sql → ResolvedField → Result (List Sql)
bucket_group tb parts (physical_field table_alias column) =
    let expr = date_trunc (granularity_to_pg tb.granularity) table_alias column in
    ok (
      if exists_where (λ s. str_eq (text_of s) (text_of expr)) parts
      then parts
      else parts ++ expr ∷ [])
bucket_group tb parts (computed_field expression) =
    err (internal (literal "timeBucket computed field should have been rejected earlier"))

abbrev pub group_text : List Sql → Sql
group_text [] = []
group_text (p ∷ ps) = raw " GROUP BY " ∷ join ", " (p ∷ ps)

module _ (root_entity : String) (alias_map : AliasMap) where
  unfoldable pub select_part : SelectField → Result Sql
  select_part sf = resolve_field sf.field root_entity alias_map >>= λ resolved.
      ok (select_text (unwrap_or sf.alias sf.field) resolved)

  unfoldable pub bucket_parts : Option TimeBucket → Result (List Sql)
  bucket_parts none = ok []
  bucket_parts (some tb) = resolve_field tb.field root_entity alias_map >>= λ resolved.
      bucket_text tb resolved >>= λ s. ok (s ∷ [])

  unfoldable pub aggregation_part : StatsAggregation → Result Sql
  aggregation_part agg =
      resolve_field agg.field root_entity alias_map >>= λ resolved. aggregation_text agg resolved

  unfoldable pub group_part : GroupByField → Result Sql
  group_part gbf =
      resolve_field gbf.field root_entity alias_map >>= λ resolved. ok (sql_expr resolved)

  unfoldable pub bucket_groups : Option TimeBucket → List Sql → Result (List Sql)
  bucket_groups none parts = ok parts
  bucket_groups (some tb) parts =
      resolve_field tb.field root_entity alias_map >>= λ resolved. bucket_group tb parts resolved

  unfoldable pub build_group_by_clause : List GroupByField → Option TimeBucket → Result Sql
  build_group_by_clause group_by time_bucket = collect group_part group_by >>= λ gb_parts.
      bucket_groups time_bucket gb_parts >>= λ parts. ok (group_text parts)

unfoldable pub union_branch : String → Result Sql
union_branch name = ok_or (bad_request (unknown_union_branch name)) (get name schema) >>= λ def.
    ok (
      raw "SELECT '"
      ∷ raw (replace_char b'\'' "''" name)
      ∷ raw
          "'::text AS __union_source, id, user_id, item_id, date, expiry_at, returned_at, nb_renews FROM "
      ∷ raw def.table
      ∷ [])

unfoldable pub build_union_from_clause : String → List String → Result Sql
build_union_from_clause entity union_with = collect union_branch (entity ∷ union_with) >>= λ parts.
    ok (raw "(" ∷ join " UNION ALL " parts ++ raw ") AS " ∷ ident entity ∷ [])

unfoldable pub from_clause : EntityDef → String → List String → Result Sql
from_clause def entity [] = ok (raw def.table ∷ raw " AS " ∷ ident entity ∷ [])
from_clause def entity (peer ∷ peers) = build_union_from_clause entity (peer ∷ peers)

abbrev direction : Option SortDirection → String
direction none = "ASC"
direction (some asc) = "ASC"
direction (some desc) = "DESC"

abbrev pub order_part : StatsOrderBy → Sql
order_part ob = ident ob.field ∷ raw " " ∷ raw (direction ob.dir) ∷ []

abbrev pub order_by_clause : List StatsOrderBy → Sql
order_by_clause [] = []
order_by_clause (ob ∷ obs) = raw " ORDER BY " ∷ join ", " (map order_part (ob ∷ obs))

abbrev pub max_limit : ℕ
max_limit = 10000

-- `query.limit.unwrap_or(1000).min(10_000)`
abbrev pub row_limit : Option ℕ → ℕ
row_limit limit = let n = unwrap_or limit 1000 in if leb n max_limit then n else max_limit

abbrev pub pagination : ℕ → ℕ → Sql
pagination limit offset = raw " LIMIT " ∷ number limit ∷ raw " OFFSET " ∷ number offset ∷ []

abbrev pub core_sql : Sql → Sql → Sql → Sql → Sql → Sql → Sql
core_sql select_clause from joins wheres groups havings =
    raw "SELECT " ∷ select_clause ++ raw " FROM " ∷ from ++ joins ++ wheres ++ groups ++ havings

abbrev pub count_sql_of : Sql → Sql
count_sql_of core = raw "SELECT COUNT(*) AS \"__total\" FROM (" ∷ core ++ raw ") AS __sub" ∷ []

abbrev pub select_clause_of : List Sql → Result Sql
select_clause_of [] =
    err
      (validation (literal "Query must include at least one of: select, timeBucket, aggregations"))
select_clause_of (p ∷ ps) = ok (join ", " (p ∷ ps))

module _ {Json : Type 0} where
  unfoldable pub build_select : StatsBuilderBody Json → AliasMap → Result Sql
  build_select query alias_map =
      collect (select_part query.entity alias_map) query.select >>= λ selected.
      bucket_parts query.entity alias_map query.time_bucket >>= λ bucketed.
      collect (aggregation_part query.entity alias_map) query.aggregations >>= λ aggregated.
      select_clause_of (selected ++ bucketed ++ aggregated)

  abbrev pub built : StatsBuilderBody Json → Sql → List Json → BuiltQuery Json
  built query core binds = record {
    data_sql =
        core
        ++ order_by_clause query.order_by
        ++ pagination (row_limit query.limit) (unwrap_or query.offset 0);
    count_sql = count_sql_of core;
    binds = binds;
  }

module _ {Json : Type 0} (as_array : Json → Option (List Json)) where
  -- The clauses after the FROM clause, with the bind values from the first on.
  unfoldable pub build_core :
      StatsBuilderBody Json → AliasMap → Sql → Sql → Result (Sql × Binds Json)
  build_core query alias_map select_clause from =
      build_where_clause as_array query.entity alias_map query record { binds = []; bind_idx = 1 }
      >>= λ (wheres, b1).
          build_group_by_clause query.entity alias_map query.group_by query.time_bucket
          >>= λ groups.
              build_having_clause as_array query.entity alias_map query.aggregations query.having b1
              >>= λ (havings, b2).
                  ok (
                    core_sql select_clause from (emit_join_sql alias_map) wheres groups havings,
                    b2,
                  )

  unfoldable pub build_sql : StatsBuilderBody Json → Result (BuiltQuery Json)
  build_sql query =
      validate_union_field_usage query
      >> (ok_or (bad_request (unknown_entity query.entity)) (get query.entity schema) >>= λ entity.
          resolve_joins query.entity query.joins >>= λ alias_map.
          build_select query alias_map >>= λ select_clause.
          from_clause entity query.entity query.union_with >>= λ from.
          build_core query alias_map select_clause from >>= λ (core, b).
          ok (built query core b.binds))
