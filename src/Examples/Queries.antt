-- ===== src/Examples/Queries.antt =====
-- The statistics theorems at work on one query of loans by month and city.
use elidune_server.Prelude.{ℕ, ◌≡◌, ◌↔◌, refl, String, false, Option, none, some, List, [], ◌∷◌}
use elidune_server.Error.{ok, err, bad_request, field_not_allowed}
use elidune_server.Stats.Body.{StatsBuilderBody, eq, gt, in_list, count, month, desc}
use elidune_server.Stats.Sql.{raw, ident, text_of}
use elidune_server.Stats.Sql.Quotes.{dollars}
use elidune_server.Stats.Chain.Client.{IsClient}
use elidune_server.Stats.JoinGraph.{
  AliasMap, resolve_joins, join_paths, walk, join_segment, find_alias, resolve_in, resolve_field,
}
use elidune_server.Stats.JoinGraph.Joined.{Joined}
use elidune_server.Stats.Validator.{validate, check_total, count_clauses}
use elidune_server.Stats.Validator.Limits.{WithinLimits, validate-WithinLimits}
use elidune_server.Stats.Schema.{schema}
use elidune_server.Stats.Union.{validate_union_branches, validate_union_field_usage}
use elidune_server.Stats.Conditions.{
  build_condition_sql, filter_condition, build_filter_conditions, group_condition, having_condition,
  build_having_conditions, filters_part, groups_part, build_where_clause, build_having_clause,
}
use elidune_server.Stats.Builder.{
  BuiltQuery, build_sql, select_part, bucket_parts, aggregation_part, group_part, bucket_groups,
  build_group_by_clause, from_clause, build_select, build_core,
}
use elidune_server.Stats.Builder.Errors.{build_sql-IsClient}

-- Two shapes of JSON are enough.
data Value : Type 0 where
  scalar : ℕ → Value
  pair : ℕ → ℕ → Value

abbrev as_array : Value → Option (List Value)
as_array (scalar n) = none
as_array (pair a b) = some (scalar a ∷ scalar b ∷ [])

abbrev joins : List String
joins = "items.biblios" ∷ "users" ∷ []

abbrev query : String → StatsBuilderBody Value
query city = record {
  entity = "loans";
  union_with = [];
  joins = joins;
  select = record { field = "users.addr_city"; alias = some "city" } ∷ [];
  filters =
      record { field = "biblios.media_type"; op = eq; value = scalar 7 }
      ∷ record { field = "nb_renews"; op = in_list; value = pair 1 2 }
      ∷ [];
  filter_groups = (record { field = city; op = eq; value = scalar 9 } ∷ []) ∷ [];
  aggregations = record { function = count; field = "loans.id"; alias = "n" } ∷ [];
  group_by = record { field = "users.addr_city"; alias = none } ∷ [];
  having = record { field = "n"; op = gt; value = scalar 5 } ∷ [];
  time_bucket = some record { field = "loans.date"; granularity = month; alias = none };
  order_by = record { field = "n"; dir = some desc } ∷ [];
  limit = some 50;
  offset = none;
}

abbrev by_city : StatsBuilderBody Value
by_city = query "users.addr_city"

abbrev built_by_city : BuiltQuery Value
unfolding build_sql validate_union_field_usage validate_union_branches resolve_joins join_paths walk
    join_segment resolve_field resolve_in find_alias schema build_select select_part bucket_parts
    aggregation_part from_clause build_core build_where_clause filters_part build_filter_conditions
    filter_condition build_condition_sql groups_part group_condition build_group_by_clause
    group_part bucket_groups build_having_clause build_having_conditions having_condition
built_by_city = elim (build_sql as_array by_city) [
  | ok q ↦ q
  | err e ↦ record { data_sql = []; count_sql = []; binds = [] }
]

city_sql :
    text_of built_by_city.data_sql
    ≡ "SELECT \"users\".\"addr_city\" AS \"city\", DATE_TRUNC('month', \"loans\".\"date\") AS \"loans_date_month\", COUNT(\"loans\".\"id\") AS \"n\" FROM loans AS \"loans\" LEFT JOIN items AS \"items\" ON \"loans\".item_id = \"items\".id LEFT JOIN biblios AS \"items__biblios\" ON \"items\".biblio_id = \"items__biblios\".id LEFT JOIN users AS \"users\" ON \"loans\".user_id = \"users\".id WHERE (\"items__biblios\".\"media_type\" = $1 AND \"loans\".\"nb_renews\" IN ($2, $3)) AND ((\"users\".\"addr_city\" = $4)) GROUP BY \"users\".\"addr_city\", DATE_TRUNC('month', \"loans\".\"date\") HAVING COUNT(\"loans\".\"id\") > $5 ORDER BY \"n\" DESC LIMIT 50 OFFSET 0"
unfolding build_sql validate_union_field_usage validate_union_branches resolve_joins join_paths walk
    join_segment resolve_field resolve_in find_alias schema build_select select_part bucket_parts
    aggregation_part from_clause build_core build_where_clause filters_part build_filter_conditions
    filter_condition build_condition_sql groups_part group_condition build_group_by_clause
    group_part bucket_groups build_having_clause build_having_conditions having_condition
city_sql = refl

-- An alias may close its own quotes: the text then has a placeholder for which there is no value.
injected : dollars false (text_of (ident "users" ∷ raw " AS " ∷ ident "a\", $2 AS \"b" ∷ [])) ≡ 1
injected = refl

refused :
    build_sql as_array (query "users.password")
    ≡ err (bad_request (field_not_allowed "users" "password"))
unfolding build_sql validate_union_field_usage validate_union_branches resolve_joins join_paths walk
    join_segment resolve_field resolve_in find_alias schema build_select select_part bucket_parts
    aggregation_part from_clause build_core build_where_clause filters_part build_filter_conditions
    filter_condition build_condition_sql groups_part group_condition build_group_by_clause
    group_part bucket_groups build_having_clause build_having_conditions having_condition
refused = refl

build_sql-IsClient_example : IsClient (bad_request (field_not_allowed "users" "password"))
build_sql-IsClient_example =
    build_sql-IsClient as_array (query "users.password")
      (bad_request (field_not_allowed "users" "password")) refused

abbrev joined : AliasMap
unfolding resolve_joins join_paths walk join_segment schema
joined = elim (resolve_joins "loans" joins) [ ok m ↦ m | err e ↦ [] ]

validate-WithinLimits_example : (validate by_city ≡ ok tt) ↔ WithinLimits by_city
validate-WithinLimits_example = validate-WithinLimits by_city

accepted_query : validate by_city ≡ ok tt
unfolding validate validate_union_field_usage validate_union_branches check_total count_clauses
accepted_query = refl
