-- ===== src/Semantic/Structure.antt =====
-- What drafting and editing keep of a layer's content, in internal/controlplane/controller/
-- semantic_layer.go.
use mission.Prelude.{
  ◌≡◌, refl, sym, ap, ◌∙◌, Bool, Bool-cases, inl, inr, true, false, some, List, [], ◌∷◌, ◌++◌, map,
  if◌then◌else◌, append_assoc, append-nil,
}
use mission.Prelude.Text.{Text, trim_space}
use mission.Prelude.Equality.{text_test, ◌==◌}
use mission.Prelude.Dict.{Dict, lookup, insert, lookup-insert}
use mission.Semantic.Types.{
  SemanticColumn, SemanticTable, SemanticLayerContent, SchemaTable, SchemaColumn, SchemaBlob,
}
use mission.Semantic.Content.{
  fq_table, or_empty, columns_at, columns_by_table, hydrated_column, hydrated_table,
  hydrate_semantic_layer_from_schema, table_descriptions, all_column_descriptions,
}

-- A table of a layer without what a user may edit.
abbrev pub undescribed_column : SemanticColumn → SemanticColumn
undescribed_column c = record c { description = [] }

abbrev pub undescribed : SemanticTable → SemanticTable
undescribed t = record t { description = []; columns = map undescribed_column t.columns }

-- The columns of a schema that stand in a table, in the order of the schema.
unfoldable pub columns_of : Text → List SchemaColumn → List SchemaColumn
columns_of key [] = []
columns_of key (c ∷ cs) =
    let rest = columns_of key cs in
    if fq_table c.table_schema c.table_name == key then c ∷ rest else rest

-- A schema's tables as a layer without descriptions.
unfoldable pub skeleton : SchemaBlob → List SemanticTable
unfolding columns_of
skeleton schema =
    map
      (λ t. record {
        table_schema = t.table_schema;
        table_name = t.table_name;
        table_type = t.table_type;
        table_comment = t.table_comment;
        description = [];
        columns =
            map (hydrated_column [])
              (columns_of (fq_table t.table_schema t.table_name) schema.columns);
      })
      schema.tables

module _ {A B : Type 0} where
  pub map-ext : (f g : A → B) → ((x : A) → f x ≡ g x) → (xs : List A) → map f xs ≡ map g xs
  map-ext f g h [] = refl
  map-ext f g h (x ∷ xs) = rw (h x, map-ext f g h xs) refl

  pub map-map :
      {C : Type 0} (f : A → B) (g : B → C) (xs : List A) → map g (map f xs) ≡ map (λ x. g (f x)) xs
  map-map f g [] = refl
  map-map f g (x ∷ xs) = ap (◌∷◌ (g (f x))) (map-map f g xs)

  map-append : (f : A → B) (xs ys : List A) → map f (xs ++ ys) ≡ map f xs ++ map f ys
  map-append f [] ys = refl
  map-append f (x ∷ xs) ys = ap (◌∷◌ (f x)) (map-append f xs ys)

-- A list that is filed under a key, and one that is filed under another.
columns_at-insert :
    (new key : Text) (cs : List SemanticColumn) (d : Dict Text (List SemanticColumn))
    → columns_at key (insert new cs d) ≡ (if new == key then cs else columns_at key d)
columns_at-insert new key cs d = ap or_empty (lookup-insert new key cs d) ∙ or_empty-if (new == key)
  where
    or_empty-if :
        (b : Bool)
        → or_empty (if b then some cs else lookup key d) ≡ (if b then cs else columns_at key d)
    or_empty-if true = refl
    or_empty-if false = refl

-- The loop over the schema's columns files each under its table.
columns_at-columns_by_table :
    (descriptions : Dict Text Text) (key : Text) (cs : List SchemaColumn)
    (d : Dict Text (List SemanticColumn))
    → columns_at key (columns_by_table descriptions cs d)
      ≡ columns_at key d ++ map (hydrated_column descriptions) (columns_of key cs)
unfolding columns_by_table columns_of
columns_at-columns_by_table descriptions key [] d = sym (append-nil _)
columns_at-columns_by_table descriptions key (c ∷ cs) d =
    let new = fq_table c.table_schema c.table_name in
    let filed = columns_at new d ++ hydrated_column descriptions c ∷ [] in
    let rest = map (hydrated_column descriptions) (columns_of key cs) in
    columns_at-columns_by_table descriptions key cs (insert new filed d)
    ∙ (ap (λ x. x ++ rest) (columns_at-insert new key filed d) ∙ elim (Bool-cases (new == key)) [
      | inl h ↦ rw h (
          append_assoc (columns_at new d) (hydrated_column descriptions c ∷ []) rest
          ∙ ap (λ k. columns_at k d ++ hydrated_column descriptions c ∷ rest)
              ((text_test.same_iff new key).0 h))
      | inr h ↦ rw h refl
    ])

undescribed-hydrated_table :
    (generated : SemanticLayerContent) (schema : SchemaBlob) (descriptions columns : Dict Text Text)
    (t : SchemaTable)
    → undescribed (hydrated_table descriptions (columns_by_table columns schema.columns []) t)
      ≡ record {
        table_schema = t.table_schema;
        table_name = t.table_name;
        table_type = t.table_type;
        table_comment = t.table_comment;
        description = [];
        columns =
            map
              (hydrated_column [])
              (columns_of (fq_table t.table_schema t.table_name) schema.columns);
      }
unfolding lookup
undescribed-hydrated_table generated schema descriptions columns t =
    rw
      (columns_at-columns_by_table columns (fq_table t.table_schema t.table_name) schema.columns [])
      (rw
        (map-map (hydrated_column columns) undescribed_column
          (columns_of (fq_table t.table_schema t.table_name) schema.columns))
        refl)

pub undescribed-hydrate_semantic_layer_from_schema :
    (schema : SchemaBlob) (generated : SemanticLayerContent)
    → map undescribed (hydrate_semantic_layer_from_schema schema generated).tables ≡ skeleton schema
unfolding hydrate_semantic_layer_from_schema skeleton
undescribed-hydrate_semantic_layer_from_schema schema generated =
    map-map _ undescribed schema.tables
    ∙ map-ext _ _
        (undescribed-hydrated_table generated schema
          (table_descriptions trim_space generated.tables [])
          (all_column_descriptions trim_space generated.tables []))
        schema.tables
