-- ===== src/Sql/Filter.antt =====
-- The queries that clients send and what they are compiled to: crates/types/src/filter.rs and
-- crates/types/src/query.rs. A `HashMap` of fields is the list of its entries in the order in which
-- it is iterated. Names of the source that are words of the language have others: `any_of` and
-- `none_of` for `In` and `NotIn`, `all_hold`, `one_holds` and `negated` for `And`, `Or` and `Not`,
-- `projection` for the field `map`. `ChangesSpec` and `ChangesOptions` are their only field, and
-- `OrderBySpec` is a `SortSpec`.
use squirreldb.Base.{ℕ, Text, Bool, Option, List}
use squirreldb.Cache.Json.{Json}

pub data SortDirection : Type 0 where
  asc desc : SortDirection

pub record SortSpec : Type 0 where
  pub field : Text
  pub direction : SortDirection

pub data FilterOperator (N : Type 0) : Type 0 where
  eq ne gt gte lt lte : Json N → FilterOperator N
  any_of none_of : List (Json N) → FilterOperator N
  contains starts_with ends_with : Text → FilterOperator N
  exists : Bool → FilterOperator N

pub data FieldCondition (N : Type 0) : Type 0 where
  operator : FilterOperator N → FieldCondition N
  value : Json N → FieldCondition N

-- `StructuredFilter` with `LogicalFilter`, whose lists are a type of the block.
mutual
  pub data StructuredFilter (N : Type 0) : Type 0 where
    all_hold one_holds : StructuredFilters N → StructuredFilter N
    negated : StructuredFilter N → StructuredFilter N
    fields : List (Text × FieldCondition N) → StructuredFilter N

  pub data StructuredFilters (N : Type 0) : Type 0 where
    nil : StructuredFilters N
    cons : StructuredFilter N → StructuredFilters N → StructuredFilters N

pub record StructuredQuery (N : Type 0) : Type 0 where
  pub table : Text
  pub filter : Option (StructuredFilter N)
  pub sort : Option (List SortSpec)
  pub limit : Option ℕ
  pub skip : Option ℕ
  pub include_initial : Option Bool

-- A client gives either the code of a function or a filter that is compiled to SQL.
pub record FilterSpec : Type 0 where
  pub js_code : Text
  pub compiled_sql : Option Text

pub record QuerySpec : Type 0 where
  pub project_id : Option ℕ
  pub table : Text
  pub filter : Option FilterSpec
  pub projection : Option Text
  pub order_by : Option SortSpec
  pub limit : Option ℕ
  pub offset : Option ℕ
  pub changes : Option Bool

pub data CompiledFilter : Type 0 where
  sql js : Text → CompiledFilter
  hybrid : Text → Text → CompiledFilter
