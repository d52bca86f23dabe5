-- ===== src/Stats/Union.antt =====
-- `validate_union_branches` and `validate_union_field_usage` (src/services/stats/schema.rs).
use elidune_server.Prelude.{
  String, if◌then◌else◌, str_eq, Bool, true, false, ◌||◌, ◌&&◌, not, none, some, List, [], ◌∷◌,
  ◌++◌, map,
}
use elidune_server.Prelude.Table.{exists_where}
use elidune_server.Error.{Result, ok, fail_if, validation, literal}
use elidune_server.Stats.Body.{StatsBuilderBody, StatsFilter}
use elidune_server.Stats.Chain.{◌>>◌}
use elidune_server.Stats.Text.{contains, codes, lower_codes}

abbrev pub loans_union_group : List String
loans_union_group = "loans" ∷ "loans_archives" ∷ []

abbrev pub is_member : String → List String → Bool
is_member name = exists_where (λ other. str_eq other name)

-- A set of the names is smaller than the list of them.
abbrev pub has_duplicate : List String → Bool
has_duplicate [] = false
has_duplicate (name ∷ names) = is_member name names || has_duplicate names

abbrev pub is_subset : List String → List String → Bool
is_subset [] names = true
is_subset (name ∷ subset) names = is_member name names && is_subset subset names

abbrev pub is_empty : {A : Type 0} → List A → Bool
is_empty [] = true
is_empty (x ∷ xs) = false

unfoldable pub validate_union_branches : String → List String → Result Unit
validate_union_branches entity [] = ok tt
validate_union_branches entity (peer ∷ peers) =
    let names = entity ∷ peer ∷ peers in
    fail_if (has_duplicate names) (validation (literal "unionWith must not duplicate entity names"))
    >> fail_if (not (is_subset names loans_union_group && is_subset loans_union_group names)) (
        validation (
          literal
            "unionWith is only supported for combining loans and loans_archives (exactly both)"))

abbrev pub field_references_union_source : String → Bool
field_references_union_source field =
    let lower = lower_codes field in
    contains (codes "union_source") lower || contains (codes "__union_source") lower

module _ {Json : Type 0} where
  abbrev group_paths : List (List (StatsFilter Json)) → List String
  group_paths [] = []
  group_paths (g ∷ gs) = map (λ filter. filter.field) g ++ group_paths gs

  abbrev pub iter_stats_field_paths : StatsBuilderBody Json → List String
  iter_stats_field_paths query =
      map (λ s. s.field) query.select
      ++ map (λ g. g.field) query.group_by
      ++ map (λ filter. filter.field) query.filters
      ++ group_paths query.filter_groups
      ++ elim query.time_bucket [ none ↦ [] | some tb ↦ tb.field ∷ [] ]
      ++ map (λ a. a.field) query.aggregations

  unfoldable pub validate_union_field_usage : StatsBuilderBody Json → Result Unit
  validate_union_field_usage query =
      validate_union_branches query.entity query.union_with
      >> (if is_empty query.union_with
          then fail_if (exists_where field_references_union_source (iter_stats_field_paths query)) (
              validation (
                literal
                  "union_source / __union_source fields require unionWith (e.g. [\"loans_archives\"])"))
          else ok tt)
