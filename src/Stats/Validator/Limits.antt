-- ===== src/Stats/Validator/Limits.antt =====
-- The queries that `validate` accepts, by their sizes (src/services/stats/validator.rs).
use Prim.Native.String.{len}
use elidune_server.Prelude.{
  ℕ, ◌+◌, ◌≤◌, ◌≡◌, refl, ◌≢◌, ◌↔◌, ap, sym, ◌∙◌, arith, eq_iff, str_eq, String, Bool, true, false,
  ltb, List, [], ◌∷◌,
}
use elidune_server.Prelude.Table.{length, exists_where, All}
use elidune_server.Error.{Result, AppError, ok, err, fail_if}
use elidune_server.Stats.Body.{StatsBuilderBody, StatsFilter}
use elidune_server.Stats.Chain.{chain_ok}
use elidune_server.Stats.Union.{validate_union_field_usage}
use elidune_server.Stats.Validator.{
  first_error, max_usize, saturating_add, check_length, count_clauses, check_total, checks,
  validate,
}

All-passed : (ms : List (Result Unit)) → first_error ms ≡ ok tt → All (λ m. m ≡ ok tt) ms
All-passed [] h = tt
All-passed (ok u ∷ ms) h = (refl, All-passed ms h)
All-passed (err e ∷ ms) h = cc

All-passing : (ms : List (Result Unit)) → All (λ m. m ≡ ok tt) ms → first_error ms ≡ ok tt
All-passing [] h = refl
All-passing (m ∷ ms) (h, hs) = rw h (All-passing ms hs)

passed : (b : Bool) (e : AppError) → fail_if b e ≡ ok tt → b ≡ false
passed true e h = cc
passed false e h = refl

length_passed :
    {A : Type 0} (xs : List A) (limit : ℕ) (what : String)
    → check_length xs limit what ≡ ok tt
    → length xs ≤ limit
length_passed xs limit what h = ground (arith, passed _ _ h)

length_passes :
    {A : Type 0} (xs : List A) (limit : ℕ) (what : String)
    → length xs ≤ limit
    → check_length xs limit what ≡ ok tt
length_passes xs limit what h = ground arith

module _ {Json : Type 0} where
  abbrev pub clause_count : List (List (StatsFilter Json)) → ℕ
  clause_count [] = 0
  clause_count (g ∷ gs) = length g + clause_count gs

saturating_add_twice :
    (t a b : ℕ) → saturating_add (saturating_add t a) b ≡ saturating_add t (a + b)
saturating_add_twice t a b = ground arith

saturating_add_zero : (t : ℕ) → t ≤ max_usize → saturating_add t 0 ≡ t
saturating_add_zero t h = ground arith

saturating_add_le : (t a : ℕ) → saturating_add t a ≤ max_usize
saturating_add_le t a = ground arith

module _ {Json : Type 0} where
  counted :
      (total n : ℕ) (gs : List (List (StatsFilter Json)))
      → total ≤ max_usize
      → count_clauses total gs ≡ ok n
      → All (λ g. length g ≤ 32) gs × (n ≡ saturating_add total (clause_count gs))
  unfolding count_clauses
  counted total n [] m h = (tt, ground (arith, saturating_add_zero total m))
  counted total n (g ∷ gs) m h =
      let (u, e, k) = chain_ok (check_length g 32 "filters in a filter group") _ n h in
      let (a, f) =
        counted (saturating_add total (length g)) n gs (saturating_add_le total (length g)) k in
      (
        (length_passed g 32 "filters in a filter group" e, a),
        f ∙ saturating_add_twice total (length g) (clause_count gs),
      )

  counts :
      (total : ℕ) (gs : List (List (StatsFilter Json)))
      → total ≤ max_usize
      → All (λ g. length g ≤ 32) gs
      → count_clauses total gs ≡ ok (saturating_add total (clause_count gs))
  unfolding count_clauses
  counts total [] m h = ap ok (sym (saturating_add_zero total m))
  counts total (g ∷ gs) m (h, hs) =
      rw
        (
          length_passes g 32 "filters in a filter group" h,
          counts (saturating_add total (length g)) gs (saturating_add_le total (length g)) hs,
        )
        (ap ok (saturating_add_twice total (length g) (clause_count gs)))

  -- At most 64 filters, 16 groups of at most 32, and 128 clauses in all: the sum cannot saturate.
  total_passed :
      (query : StatsBuilderBody Json)
      → length query.filters ≤ 64
      → check_total query ≡ ok tt
      → All (λ g. length g ≤ 32) query.filter_groups
        × (length query.filters + clause_count query.filter_groups ≤ 128)
  unfolding check_total
  total_passed query f h =
      let (n, e, k) = chain_ok (count_clauses (length query.filters) query.filter_groups) _ tt h in
      let (a, s) = counted (length query.filters) n query.filter_groups (omega arith) e in
      (a, ground (arith, s, passed (ltb 128 n) _ k))

  total_passes :
      (query : StatsBuilderBody Json)
      → length query.filters ≤ 64
      → All (λ g. length g ≤ 32) query.filter_groups
      → length query.filters + clause_count query.filter_groups ≤ 128
      → check_total query ≡ ok tt
  unfolding check_total
  total_passes query f a s =
      rw (counts (length query.filters) query.filter_groups (omega arith) a) (ground arith)

  -- The sizes of a query that is accepted.
  abbrev pub WithinLimits : StatsBuilderBody Json → Type 0
  WithinLimits query =
      (query.entity ≢ "")
      × (validate_union_field_usage query ≡ ok tt)
      × (length query.union_with ≤ 4)
      × (length query.joins ≤ 32)
      × (length query.filters ≤ 64)
      × (length query.filter_groups ≤ 16)
      × All (λ g. length g ≤ 32) query.filter_groups
      × (length query.filters + clause_count query.filter_groups ≤ 128)
      × (length query.select ≤ 64)
      × (length query.aggregations ≤ 32)
      × (length query.group_by ≤ 32)
      × (length query.order_by ≤ 16)
      × (exists_where (λ p. ltb 256 (len p)) query.joins ≡ false)

  accepted : (query : StatsBuilderBody Json) → validate query ≡ ok tt → WithinLimits query
  unfolding validate
  accepted query h =
      let (
        named,
        (
          usage,
          (
            peers,
            (
              joins,
              (filters, (groups, (total, (select, (aggs, (group_by, (order, (paths, u)))))))),
            ),
          ),
        ),
      ) =
        All-passed (checks query) h in
      let few = length_passed query.filters 64 "filters" filters in
      let (each, sum) = total_passed query few total in
      (
        (λ e. ground (arith, passed (str_eq query.entity "") _ named, eq_iff query.entity "")),
        usage,
        length_passed query.union_with 4 "unionWith peers" peers,
        length_passed query.joins 32 "join paths" joins,
        few,
        length_passed query.filter_groups 16 "filterGroups" groups,
        each,
        sum,
        length_passed query.select 64 "select fields" select,
        length_passed query.aggregations 32 "aggregations" aggs,
        length_passed query.group_by 32 "groupBy fields" group_by,
        length_passed query.order_by 16 "orderBy fields" order,
        passed (exists_where (λ p. ltb 256 (len p)) query.joins) _ paths,
      )

  accepts : (query : StatsBuilderBody Json) → WithinLimits query → validate query ≡ ok tt
  unfolding validate
  accepts query
        (
          named, usage, peers, joins, filters, groups, each, sum, select, aggs, group_by, order,
          paths,
        ) =
      All-passing (checks query) (
        ground (arith, eq_iff query.entity ""),
        (
          usage,
          (
            length_passes query.union_with 4 "unionWith peers" peers,
            (
              length_passes query.joins 32 "join paths" joins,
              (
                length_passes query.filters 64 "filters" filters,
                (
                  length_passes query.filter_groups 16 "filterGroups" groups,
                  (
                    total_passes query filters each sum,
                    (
                      length_passes query.select 64 "select fields" select,
                      (
                        length_passes query.aggregations 32 "aggregations" aggs,
                        (
                          length_passes query.group_by 32 "groupBy fields" group_by,
                          (
                            length_passes query.order_by 16 "orderBy fields" order,
                            (rw paths refl, tt),
                          ),
                        ),
                      ),
                    ),
                  ),
                ),
              ),
            ),
          ),
        ),
      )

  -- A query is accepted exactly when it names an entity, uses the union as it may, and keeps to the
  -- sizes: 4 peers, 32 join paths of at most 256 bytes, 64 filters, 16 groups of at most 32 filters,
  -- 128 filter clauses in all, 64 selected fields, 32 aggregations, 32 groupings, 16 orderings.
  pub validate-WithinLimits :
      (query : StatsBuilderBody Json) → (validate query ≡ ok tt) ↔ WithinLimits query
  validate-WithinLimits query = (accepted query, accepts query)
