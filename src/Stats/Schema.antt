-- ===== src/Stats/Schema.antt =====
-- The entities that a statistics query may reach, with their columns and relations.
use elidune_server.Prelude.Table.{IsRow, exists_where}
use elidune_server.Prelude.{
  Bool-cases, inl, inr, ◌≡◌, sym, eq_iff, arith, Bool, false, String, str_eq, Option, none, some,
  List, [], ◌∷◌, if◌then◌else◌,
}

pub data FieldKind : Type 0 where
  physical computed : String → FieldKind

pub record FieldDef : Type 0 where
  pub kind : FieldKind
  pub data_type : String
  pub label : String

pub record RelationDef : Type 0 where
  pub target_entity : String
  pub from_column : String
  pub to_column : String
  pub label : String

pub record EntityDef : Type 0 where
  pub table : String
  pub label : String
  pub fields : List (String × FieldDef)
  pub relations : List (String × RelationDef)

-- `HashMap::get`
abbrev pub get {ℓ} : {V : Type ℓ} → String → List (String × V) → Option V
get k [] = none
get k ((j, v) ∷ m) = if str_eq j k then some v else get k m

abbrev f : String → String → String → FieldDef
f column data_type label = record { kind = physical column; data_type = data_type; label = label }

abbrev c : String → String → String → FieldDef
c sql_template data_type label = record {
  kind = computed sql_template;
  data_type = data_type;
  label = label;
}

abbrev r : String → String → String → String → RelationDef
r target_entity from_column to_column label = record {
  target_entity = target_entity;
  from_column = from_column;
  to_column = to_column;
  label = label;
}

abbrev pub loans_entity : EntityDef
loans_entity = record {
  table = "loans";
  label = "Loans";
  fields =
      ("id", f "id" "bigint" "Loan id")
      ∷ ("user_id", f "user_id" "bigint" "User id")
      ∷ ("item_id", f "item_id" "bigint" "Item id")
      ∷ ("date", f "date" "timestamptz" "Loan date")
      ∷ ("expiry_at", f "expiry_at" "timestamptz" "Due date")
      ∷ ("returned_at", f "returned_at" "timestamptz" "Return date")
      ∷ ("nb_renews", f "nb_renews" "integer" "Renewals")
      ∷ (
        "union_source",
        c "{alias}.__union_source" "text"
            "Union branch (loans | loans_archives); only when using unionWith",
      )
      ∷ [];
  relations =
      ("users", r "users" "user_id" "id" "Borrower")
      ∷ ("items", r "items" "item_id" "id" "Item copy")
      ∷ [];
}

abbrev pub users_entity : EntityDef
users_entity = record {
  table = "users";
  label = "Patrons";
  fields =
      ("id", f "id" "bigint" "User id")
      ∷ ("firstname", f "firstname" "text" "First name")
      ∷ ("lastname", f "lastname" "text" "Last name")
      ∷ ("addr_city", f "addr_city" "text" "City")
      ∷ ("sex", f "sex" "text" "Sex (m/f)")
      ∷ (
        "age_band",
        c
            "CASE WHEN {alias}.birthdate IS NULL THEN NULL WHEN EXTRACT(YEAR FROM AGE(CURRENT_DATE, {alias}.birthdate)) < 18 THEN '0-17' WHEN EXTRACT(YEAR FROM AGE(CURRENT_DATE, {alias}.birthdate)) < 30 THEN '18-29' WHEN EXTRACT(YEAR FROM AGE(CURRENT_DATE, {alias}.birthdate)) < 50 THEN '30-49' WHEN EXTRACT(YEAR FROM AGE(CURRENT_DATE, {alias}.birthdate)) < 65 THEN '50-64' ELSE '65+' END"
            "text" "Age band (from birthdate)",
      )
      ∷ (
        "sex_label",
        c "CASE {alias}.sex WHEN 'm' THEN 'male' WHEN 'f' THEN 'female' ELSE 'unknown' END" "text"
            "Sex label",
      )
      ∷ (
        "age_band_3",
        c
            "CASE WHEN {alias}.birthdate IS NULL THEN NULL WHEN EXTRACT(YEAR FROM AGE(CURRENT_DATE, {alias}.birthdate)) <= 14 THEN '0-14' WHEN EXTRACT(YEAR FROM AGE(CURRENT_DATE, {alias}.birthdate)) <= 64 THEN '15-64' ELSE '65+' END"
            "text" "Age band: 0–14, 15–64, 65+",
      )
      ∷ (
        "active_membership_calendar_year",
        c
            "CASE WHEN {alias}.expiry_at IS NULL OR {alias}.expiry_at >= date_trunc('year', CURRENT_TIMESTAMP) THEN 'yes' ELSE 'no' END"
            "text"
            "Membership active for current calendar year (no expiry or expiry on/after Jan 1)",
      )
      ∷ ("birthdate", f "birthdate" "date" "Birth date")
      ∷ ("created_at", f "created_at" "timestamptz" "Registration")
      ∷ ("expiry_at", f "expiry_at" "timestamptz" "Membership expiry")
      ∷ ("status", f "status" "text" "Status")
      ∷ [];
  relations =
      ("public_types", r "public_types" "public_type" "id" "Audience type")
      ∷ ("account_types", r "account_types" "account_type" "code" "Account type")
      ∷ [];
}

abbrev pub items_entity : EntityDef
items_entity = record {
  table = "items";
  label = "Item copies";
  fields =
      ("id", f "id" "bigint" "Item id")
      ∷ ("biblio_id", f "biblio_id" "bigint" "Biblio id")
      ∷ ("source_id", f "source_id" "bigint" "Catalog source id")
      ∷ ("barcode", f "barcode" "text" "Barcode")
      ∷ ("call_number", f "call_number" "text" "Call number")
      ∷ ("created_at", f "created_at" "timestamptz" "Created at")
      ∷ ("archived_at", f "archived_at" "timestamptz" "Archived at")
      ∷ [];
  relations =
      ("biblios", r "biblios" "biblio_id" "id" "Biblio")
      ∷ ("sources", r "sources" "source_id" "id" "Catalog source")
      ∷ [];
}

abbrev pub sources_entity : EntityDef
sources_entity = record {
  table = "sources";
  label = "Catalog sources";
  fields = ("id", f "id" "bigint" "Source id") ∷ ("name", f "name" "text" "Source name") ∷ [];
  relations = [];
}

abbrev pub biblios_entity : EntityDef
biblios_entity = record {
  table = "biblios";
  label = "Bibliographic records";
  fields =
      ("id", f "id" "bigint" "Biblio id")
      ∷ ("title", f "title" "text" "Title")
      ∷ ("media_type", f "media_type" "text" "Media type")
      ∷ ("audience_type", f "audience_type" "text" "Audience")
      ∷ ("lang", f "lang" "text" "Language")
      ∷ ("publication_date", f "publication_date" "text" "Publication date")
      ∷ [];
  relations = [];
}

abbrev pub public_types_entity : EntityDef
public_types_entity = record {
  table = "public_types";
  label = "Audience types";
  fields =
      ("id", f "id" "bigint" "Id")
      ∷ ("name", f "name" "text" "Code")
      ∷ ("label", f "label" "text" "Label")
      ∷ [];
  relations = [];
}

abbrev pub account_types_entity : EntityDef
account_types_entity = record {
  table = "account_types";
  label = "Account types";
  fields =
      ("code", f "code" "text" "Code")
      ∷ ("name", f "name" "text" "Name")
      ∷ ("events_rights", f "events_rights" "text" "Events (n/r/w)")
      ∷ [];
  relations = [];
}

abbrev pub visitor_counts_entity : EntityDef
visitor_counts_entity = record {
  table = "visitor_counts";
  label = "Visitor counts";
  fields =
      ("id", f "id" "bigint" "Id")
      ∷ ("count_date", f "count_date" "date" "Date")
      ∷ ("count", f "count" "integer" "Visitors")
      ∷ ("source", f "source" "text" "Source")
      ∷ [];
  relations = [];
}

abbrev pub events_entity : EntityDef
events_entity = record {
  table = "events";
  label = "Events";
  fields =
      ("id", f "id" "bigint" "Id")
      ∷ ("name", f "name" "text" "Name")
      ∷ ("event_type", f "event_type" "integer" "Type")
      ∷ ("event_date", f "event_date" "date" "Date")
      ∷ ("attendees_count", f "attendees_count" "integer" "Attendees")
      ∷ ("public_type", f "public_type" "text" "Target audience (public_types.name)")
      ∷ ("school_name", f "school_name" "text" "School")
      ∷ ("students_count", f "students_count" "integer" "Students")
      ∷ [];
  relations = [];
}

abbrev pub loans_archives_entity : EntityDef
loans_archives_entity = record {
  table = "loans_archives";
  label = "Archived loans";
  fields =
      ("id", f "id" "bigint" "Id")
      ∷ ("user_id", f "user_id" "bigint" "User id")
      ∷ ("item_id", f "item_id" "bigint" "Item id")
      ∷ ("date", f "date" "timestamptz" "Date")
      ∷ ("expiry_at", f "expiry_at" "timestamptz" "Due date")
      ∷ ("returned_at", f "returned_at" "timestamptz" "Return")
      ∷ ("nb_renews", f "nb_renews" "integer" "Renewals")
      ∷ ("addr_city", f "addr_city" "text" "Borrower city")
      ∷ [];
  relations =
      ("users", r "users" "user_id" "id" "Borrower")
      ∷ ("public_types", r "public_types" "borrower_public_type" "id" "Audience type")
      ∷ ("items", r "items" "item_id" "id" "Item copy")
      ∷ [];
}

unfoldable pub schema : List (String × EntityDef)
schema =
    ("loans", loans_entity)
    ∷ ("users", users_entity)
    ∷ ("items", items_entity)
    ∷ ("sources", sources_entity)
    ∷ ("biblios", biblios_entity)
    ∷ ("public_types", public_types_entity)
    ∷ ("account_types", account_types_entity)
    ∷ ("visitor_counts", visitor_counts_entity)
    ∷ ("events", events_entity)
    ∷ ("loans_archives", loans_archives_entity)
    ∷ []

pub get-IsRow :
    {V : Type 0} (k : String) (m : List (String × V)) (v : V) → get k m ≡ some v → IsRow (k, v) m
get-IsRow k [] v e = cc
get-IsRow k ((j, w) ∷ m) v e = elim (Bool-cases (str_eq j k)) [
  | inl same ↦ inl (ground (arith, eq_iff j k))
  | inr other ↦ inr (get-IsRow k m v (ground arith))
]

-- A test that fails on every entry fails on the one that is found.
IsRow_fails :
    {A : Type 0} (p : A → Bool) (x : A) (xs : List A)
    → exists_where p xs ≡ false
    → IsRow x xs
    → p x ≡ false
IsRow_fails p x [] n r = absurd r
IsRow_fails p x (y ∷ ys) n (inl e) = rw (sym e) (ground arith)
IsRow_fails p x (y ∷ ys) n (inr r) = IsRow_fails p x ys (ground arith) r

pub get_fails :
    {V : Type 0} (p : String × V → Bool) (k : String) (m : List (String × V)) (v : V)
    → exists_where p m ≡ false
    → get k m ≡ some v
    → p (k, v) ≡ false
get_fails p k m v n e = IsRow_fails p (k, v) m n (get-IsRow k m v e)
