-- ===== src/Stats/Body.antt =====
-- The body of a statistics query (src/models/stats_builder.rs). `Json` is `serde_json::Value`.
use elidune_server.Prelude.{ℕ, String, Option, List}

pub record SelectField : Type 0 where
  pub field : String
  pub alias : Option String

pub record GroupByField : Type 0 where
  pub field : String
  pub alias : Option String

pub data FilterOperator : Type 0 where
  eq neq gt gte lt lte in_list not_in is_null is_not_null : FilterOperator

pub record StatsFilter (Json : Type 0) : Type 0 where
  pub field : String
  pub op : FilterOperator
  pub value : Json

pub record HavingFilter (Json : Type 0) : Type 0 where
  pub field : String
  pub op : FilterOperator
  pub value : Json

pub data AggregateFunction : Type 0 where
  count count_distinct sum avg min max : AggregateFunction

pub record StatsAggregation : Type 0 where
  pub function : AggregateFunction
  pub field : String
  pub alias : String

pub data TimeGranularity : Type 0 where
  day week month quarter year : TimeGranularity

pub record TimeBucket : Type 0 where
  pub field : String
  pub granularity : TimeGranularity
  pub alias : Option String

pub data SortDirection : Type 0 where
  asc desc : SortDirection

pub record StatsOrderBy : Type 0 where
  pub field : String
  pub dir : Option SortDirection

pub record StatsBuilderBody (Json : Type 0) : Type 0 where
  pub entity : String
  pub union_with : List String
  pub joins : List String
  pub select : List SelectField
  pub filters : List (StatsFilter Json)
  pub filter_groups : List (List (StatsFilter Json))
  pub aggregations : List StatsAggregation
  pub group_by : List GroupByField
  pub having : List (HavingFilter Json)
  pub time_bucket : Option TimeBucket
  pub order_by : List StatsOrderBy
  pub limit : Option ℕ
  pub offset : Option ℕ
