-- ===== src/Stats/Builder/Numbers.antt =====
-- The placeholders of the two statements that `build_sql` returns (src/services/stats/query_builder.rs).
use elidune_server.Prelude.{true, ◌≡◌, Option, List, []}
use elidune_server.Prelude.Table.{length}
use elidune_server.Stats.Sql.{Sql, placeholders, numbers_from}
use elidune_server.Stats.Sql.Quotes.{well_quoted}
use elidune_server.Stats.Conditions.{Binds}
use elidune_server.Stats.Conditions.Numbered.{Numbered}
use elidune_server.Stats.Builder.{BuiltQuery}
use elidune_server.Stats.Builder.Plain.{Plain}

abbrev start : {Json : Type 0} → Binds Json
start = record { binds = []; bind_idx = 1 }

module _ {Json : Type 0} (as_array : Json → Option (List Json)) where
  -- What a built query promises of its placeholders.
  abbrev pub NumbersBinds : BuiltQuery Json → Type 0
  NumbersBinds q =
      (placeholders q.data_sql ≡ numbers_from 1 (length q.binds))
      × (placeholders q.count_sql ≡ numbers_from 1 (length q.binds))
      × (well_quoted q.data_sql ≡ true → well_quoted q.count_sql ≡ true)
