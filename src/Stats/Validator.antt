-- ===== src/Stats/Validator.antt =====
-- Size and shape validation of a query (src/services/stats/validator.rs).
pub mod Limits
use elidune_server.Prelude.{ℕ, ◌+◌, String, str_eq, if◌then◌else◌, leb, ltb, List, [], ◌∷◌}
use elidune_server.Prelude.Table.{length, exists_where}
use elidune_server.Error.{
  Result, ok, err, fail_if, validation, literal, too_many, too_many_filter_clauses,
}
use elidune_server.Stats.Body.{StatsBuilderBody, StatsFilter}
use elidune_server.Stats.Chain.{◌>>◌, ◌>>=◌}
use elidune_server.Stats.Union.{validate_union_field_usage}
use Prim.Native.String.{len}

abbrev pub max_join_paths : ℕ
max_join_paths = 32

abbrev pub max_filters : ℕ
max_filters = 64

abbrev pub max_filter_groups : ℕ
max_filter_groups = 16

abbrev pub max_filters_per_or_group : ℕ
max_filters_per_or_group = 32

abbrev pub max_total_filter_clauses : ℕ
max_total_filter_clauses = 128

abbrev pub max_select : ℕ
max_select = 64

abbrev pub max_aggregations : ℕ
max_aggregations = 32

abbrev pub max_group_by : ℕ
max_group_by = 32

abbrev pub max_order_by : ℕ
max_order_by = 16

abbrev pub max_union_with_peers : ℕ
max_union_with_peers = 4

-- `usize::MAX` on a 64-bit machine
abbrev pub max_usize : ℕ
max_usize = 18446744073709551615

abbrev pub saturating_add : ℕ → ℕ → ℕ
saturating_add a b = if leb (a + b) max_usize then a + b else max_usize

-- `if xs.len() > limit { return Err(…) }`
abbrev pub check_length : {A : Type 0} → List A → ℕ → String → Result Unit
check_length xs limit what = fail_if (ltb limit (length xs)) (validation (too_many what limit))

-- Checks in their order: the first that fails decides.
abbrev pub first_error : List (Result Unit) → Result Unit
first_error [] = ok tt
first_error (m ∷ ms) = m >> first_error ms

module _ {Json : Type 0} where
  unfoldable pub count_clauses : ℕ → List (List (StatsFilter Json)) → Result ℕ
  count_clauses total [] = ok total
  count_clauses total (group ∷ groups) =
      check_length group max_filters_per_or_group "filters in a filter group"
      >> count_clauses (saturating_add total (length group)) groups

  unfoldable pub check_total : StatsBuilderBody Json → Result Unit
  check_total query = count_clauses (length query.filters) query.filter_groups >>= λ total_clauses.
      fail_if (ltb max_total_filter_clauses total_clauses)
        (validation (too_many_filter_clauses max_total_filter_clauses))

  -- The checks of `validate`, in its order.
  abbrev pub checks : StatsBuilderBody Json → List (Result Unit)
  checks query =
      fail_if (str_eq query.entity "") (validation (literal "entity is required"))
      ∷ validate_union_field_usage query
      ∷ check_length query.union_with max_union_with_peers "unionWith peers"
      ∷ check_length query.joins max_join_paths "join paths"
      ∷ check_length query.filters max_filters "filters"
      ∷ check_length query.filter_groups max_filter_groups "filterGroups"
      ∷ check_total query
      ∷ check_length query.select max_select "select fields"
      ∷ check_length query.aggregations max_aggregations "aggregations"
      ∷ check_length query.group_by max_group_by "groupBy fields"
      ∷ check_length query.order_by max_order_by "orderBy fields"
      ∷ fail_if (exists_where (λ p. ltb 256 (len p)) query.joins)
          (validation (literal "Join path too long"))
      ∷ []

  unfoldable pub validate : StatsBuilderBody Json → Result Unit
  validate query = first_error (checks query)
