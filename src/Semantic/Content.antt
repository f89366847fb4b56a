-- ===== src/Semantic/Content.antt =====
-- What internal/controlplane/controller/semantic_layer.go does with a layer's content: the structure comes
-- from the schema, the descriptions from the model or the user.
use mission.Prelude.{
  Bool, true, false, ◌||◌, Option, none, some, List, [], ◌∷◌, ◌++◌, map, if◌then◌else◌,
}
use mission.Prelude.Text.{Text, is_empty, trim_space}
use mission.Prelude.Equality.{text_test}
use mission.Prelude.Dict.{Dict, lookup, insert}
use mission.Semantic.Types.{
  SemanticColumn, SemanticTable, SemanticEntity, CandidateMetric, SemanticLayerContent, SchemaTable,
  SchemaColumn, SchemaBlob,
}

abbrev pub fq_table : Text → Text → Text
fq_table schema table = schema ++ b'.' ∷ table

abbrev pub fq_column : Text → Text → Text → Text
fq_column schema table column = schema ++ b'.' ∷ (table ++ b'.' ∷ column)

-- Whether a table's columns all have a name.
unfoldable pub columns_named : List SemanticColumn → Bool
columns_named [] = true
columns_named (c ∷ cs) =
    let rest = columns_named cs in if is_empty (trim_space c.column_name) then false else rest

-- The loop of `validateSemanticLayerContent` over the tables.
unfoldable pub tables_valid : List SemanticTable → Bool
unfolding columns_named
tables_valid [] = true
tables_valid (t ∷ ts) =
    let rest = tables_valid ts in
    if is_empty (trim_space t.table_schema) || is_empty (trim_space t.table_name)
    then false
    else if is_empty t.columns
    then false
    else if columns_named t.columns
    then rest
    else false

-- `validateSemanticLayerContent`; false is ErrInvalidSemanticLayer.
unfoldable pub validate_semantic_layer_content : SemanticLayerContent → Bool
unfolding tables_valid
validate_semantic_layer_content content =
    if is_empty content.tables then false else tables_valid content.tables

unfoldable pub normalize_strings : List Text → List Text
normalize_strings [] = []
normalize_strings (value ∷ values) =
    let rest = normalize_strings values in
    if is_empty (trim_space value) then rest else trim_space value ∷ rest

unfoldable pub normalize_entities : List SemanticEntity → List SemanticEntity
unfolding normalize_strings
normalize_entities [] = []
normalize_entities (e ∷ es) =
    let rest = normalize_entities es in
    let next = record e {
      name = trim_space e.name;
      description = trim_space e.description;
      source_tables = normalize_strings e.source_tables;
    } in
    if is_empty (trim_space e.name) then rest else next ∷ rest

unfoldable pub normalize_metrics : List CandidateMetric → List CandidateMetric
unfolding normalize_strings
normalize_metrics [] = []
normalize_metrics (m ∷ ms) =
    let rest = normalize_metrics ms in
    let next = record m {
      name = trim_space m.name;
      description = trim_space m.description;
      source_tables = normalize_strings m.source_tables;
    } in
    if is_empty (trim_space m.name) then rest else next ∷ rest

-- Go's `m[key]`, with the zero value for a missing key.
abbrev pub or_empty : {A : Type 0} → Option (List A) → List A
or_empty none = []
or_empty (some v) = v

abbrev pub text_at : Text → Dict Text Text → Text
text_at key d = or_empty (lookup key d)

abbrev pub columns_at : Text → Dict Text (List SemanticColumn) → List SemanticColumn
columns_at key d = or_empty (lookup key d)

-- The two maps of descriptions. `change` is TrimSpace for a draft, nothing for an update.
unfoldable pub table_descriptions :
    (Text → Text) → List SemanticTable → Dict Text Text → Dict Text Text
table_descriptions change [] d = d
table_descriptions change (t ∷ ts) d =
    table_descriptions change ts
      (insert (fq_table t.table_schema t.table_name) (change t.description) d)

unfoldable pub column_descriptions :
    (Text → Text) → List SemanticColumn → Dict Text Text → Dict Text Text
column_descriptions change [] d = d
column_descriptions change (c ∷ cs) d =
    column_descriptions change cs
      (insert (fq_column c.table_schema c.table_name c.column_name) (change c.description) d)

unfoldable pub all_column_descriptions :
    (Text → Text) → List SemanticTable → Dict Text Text → Dict Text Text
unfolding column_descriptions
all_column_descriptions change [] d = d
all_column_descriptions change (t ∷ ts) d =
    all_column_descriptions change ts (column_descriptions change t.columns d)

abbrev pub hydrated_column : Dict Text Text → SchemaColumn → SemanticColumn
hydrated_column descriptions c = record {
  table_schema = c.table_schema;
  table_name = c.table_name;
  column_name = c.column_name;
  ordinal_position = c.ordinal_position;
  data_type = c.data_type;
  column_type = c.column_type;
  is_nullable = c.is_nullable;
  column_comment = c.column_comment;
  description = text_at (fq_column c.table_schema c.table_name c.column_name) descriptions;
}

-- The loop that fills `columnsByTable`.
unfoldable pub columns_by_table :
    Dict Text Text
    → List SchemaColumn
    → Dict Text (List SemanticColumn)
    → Dict Text (List SemanticColumn)
columns_by_table descriptions [] d = d
columns_by_table descriptions (c ∷ cs) d =
    let key = fq_table c.table_schema c.table_name in
    columns_by_table descriptions cs
      (insert key (columns_at key d ++ hydrated_column descriptions c ∷ []) d)

abbrev pub hydrated_table :
    Dict Text Text → Dict Text (List SemanticColumn) → SchemaTable → SemanticTable
hydrated_table descriptions columns t = record {
  table_schema = t.table_schema;
  table_name = t.table_name;
  table_type = t.table_type;
  table_comment = t.table_comment;
  description = text_at (fq_table t.table_schema t.table_name) descriptions;
  columns = columns_at (fq_table t.table_schema t.table_name) columns;
}

unfoldable pub hydrate_semantic_layer_from_schema :
    SchemaBlob → SemanticLayerContent → SemanticLayerContent
unfolding table_descriptions all_column_descriptions columns_by_table normalize_entities
    normalize_metrics
hydrate_semantic_layer_from_schema schema generated = record {
  tables =
      map
        (hydrated_table (table_descriptions trim_space generated.tables []) (
          columns_by_table (all_column_descriptions trim_space generated.tables []) schema.columns
            []))
        schema.tables;
  entities = normalize_entities generated.entities;
  candidate_metrics = normalize_metrics generated.candidate_metrics;
}

-- `if description, ok := descriptions[key]; ok`.
abbrev pub text_or : Text → Dict Text Text → Text → Text
text_or key d kept = elim (lookup key d) [ none ↦ kept | some v ↦ v ]

abbrev pub merged_column : Dict Text Text → SemanticColumn → SemanticColumn
merged_column descriptions c = record c {
  description =
      text_or (fq_column c.table_schema c.table_name c.column_name) descriptions c.description;
}

abbrev pub merged_table : Dict Text Text → Dict Text Text → SemanticTable → SemanticTable
merged_table tables columns t = record t {
  description = text_or (fq_table t.table_schema t.table_name) tables t.description;
  columns = map (merged_column columns) t.columns;
}

unfoldable pub merge_editable_descriptions :
    SemanticLayerContent → SemanticLayerContent → SemanticLayerContent
unfolding table_descriptions all_column_descriptions
merge_editable_descriptions base edited = record base {
  tables =
      map
        (merged_table (table_descriptions (λ s. s) edited.tables [])
          (all_column_descriptions (λ s. s) edited.tables []))
        base.tables;
}
