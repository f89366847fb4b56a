-- ===== src/Semantic/Editing.antt =====
-- What an edit of internal/controlplane/controller/semantic_layer.go keeps.
use mission.Prelude.{
  ◌≡◌, refl, sym, ap, ◌∙◌, false, Option, none, some, List, [], ◌∷◌, map, if◌then◌else◌,
}
use mission.Prelude.Text.{Text, is_empty}
use mission.Prelude.Equality.{text_test}
use mission.Prelude.Dict.{Dict, lookup}
use mission.Semantic.Types.{SemanticColumn, SemanticTable, SemanticLayerContent}
use mission.Semantic.Content.{
  fq_table, fq_column, columns_named, tables_valid, validate_semantic_layer_content, merged_column,
  merged_table, merge_editable_descriptions, text_or, table_descriptions, all_column_descriptions,
}
use mission.Semantic.Structure.{undescribed_column, undescribed, map-ext, map-map}

undescribed-merged_table :
    (tables columns : Dict Text Text) (t : SemanticTable)
    → undescribed (merged_table tables columns t) ≡ undescribed t
undescribed-merged_table tables columns t =
    rw (map-map (merged_column columns) undescribed_column t.columns) refl

-- An edit changes descriptions only: the tables of the result are those of the layer that is edited, but for
-- the descriptions, and its entities and metrics are the same, whatever tables and columns the edit names.
pub undescribed-merge_editable_descriptions :
    (base edited : SemanticLayerContent)
    → (map undescribed (merge_editable_descriptions base edited).tables
        ≡ map undescribed base.tables)
      × (((merge_editable_descriptions base edited).entities ≡ base.entities)
          × ((merge_editable_descriptions base edited).candidate_metrics ≡ base.candidate_metrics))
unfolding merge_editable_descriptions
undescribed-merge_editable_descriptions base edited = (
  map-map _ undescribed base.tables
      ∙ map-ext _ _
          (undescribed-merged_table (table_descriptions (λ s. s) edited.tables [])
            (all_column_descriptions (λ s. s) edited.tables []))
          base.tables,
  (refl, refl),
)

-- An entry of the map replaces a text once and for all.
text_or-text_or :
    (key : Text) (d : Dict Text Text) (s : Text) → text_or key d (text_or key d s) ≡ text_or key d s
text_or-text_or key d s = twice (lookup key d)
  where
    twice :
        (o : Option Text)
        → (elim o as (λ _. Text) [
          | none ↦ elim o as (λ _. Text) [ none ↦ s | some v ↦ v ]
          | some v ↦ v
        ])
          ≡ (elim o as (λ _. Text) [ none ↦ s | some v ↦ v ])
    twice none = refl
    twice (some v) = refl

merged_column-merged_column :
    (d : Dict Text Text) (c : SemanticColumn)
    → merged_column d (merged_column d c) ≡ merged_column d c
merged_column-merged_column d c =
    ap (λ s. record c { description = s })
      (text_or-text_or (fq_column c.table_schema c.table_name c.column_name) d c.description)

merged_table-merged_table :
    (tables columns : Dict Text Text) (t : SemanticTable)
    → merged_table tables columns (merged_table tables columns t) ≡ merged_table tables columns t
merged_table-merged_table tables columns t =
    ap
      (λ s. record t {
        description = s;
        columns = map (merged_column columns) (map (merged_column columns) t.columns);
      })
      (text_or-text_or (fq_table t.table_schema t.table_name) tables t.description)
    ∙ ap
        (λ cs. record t {
          description = text_or (fq_table t.table_schema t.table_name) tables t.description;
          columns = cs;
        })
        (map-map (merged_column columns) (merged_column columns) t.columns
          ∙ map-ext _ _ (merged_column-merged_column columns) t.columns)

-- The same edit again changes nothing.
pub merge_editable_descriptions_idem :
    (base edited : SemanticLayerContent)
    → merge_editable_descriptions (merge_editable_descriptions base edited) edited
      ≡ merge_editable_descriptions base edited
unfolding merge_editable_descriptions
merge_editable_descriptions_idem base edited =
    ap (λ ts. record base { tables = ts })
      (map-map _ _ base.tables
        ∙ map-ext _ _
            (merged_table-merged_table (table_descriptions (λ s. s) edited.tables [])
              (all_column_descriptions (λ s. s) edited.tables []))
            base.tables)

columns_named-undescribed_column :
    (cs : List SemanticColumn) → columns_named (map undescribed_column cs) ≡ columns_named cs
unfolding columns_named
columns_named-undescribed_column [] = refl
columns_named-undescribed_column (c ∷ cs) = rw (columns_named-undescribed_column cs) refl

is_empty-map : {A B : Type 0} (f : A → B) (xs : List A) → is_empty (map f xs) ≡ is_empty xs
is_empty-map f [] = refl
is_empty-map f (x ∷ xs) = refl

tables_valid-undescribed :
    (ts : List SemanticTable) → tables_valid (map undescribed ts) ≡ tables_valid ts
unfolding tables_valid
tables_valid-undescribed [] = refl
tables_valid-undescribed (t ∷ ts) =
    rw
      (
        tables_valid-undescribed ts,
        columns_named-undescribed_column t.columns,
        is_empty-map undescribed_column t.columns,
      )
      refl

-- Whether a content is valid depends on its undescribed tables only.
valid-undescribed :
    (b c : SemanticLayerContent)
    → map undescribed b.tables ≡ map undescribed c.tables
    → validate_semantic_layer_content b ≡ validate_semantic_layer_content c
unfolding validate_semantic_layer_content
valid-undescribed b c same =
    sym (go b) ∙ (ap (λ ts. if is_empty ts then false else tables_valid ts) same ∙ go c)
  where
    go :
        (x : SemanticLayerContent)
        → (if is_empty (map undescribed x.tables)
            then false
            else tables_valid (map undescribed x.tables))
          ≡ (if is_empty x.tables then false else tables_valid x.tables)
    go x = rw (is_empty-map undescribed x.tables, tables_valid-undescribed x.tables) refl

-- An edited content is valid just when the content that is edited is.
pub validate-merge_editable_descriptions :
    (base edited : SemanticLayerContent)
    → validate_semantic_layer_content (merge_editable_descriptions base edited)
      ≡ validate_semantic_layer_content base
validate-merge_editable_descriptions base edited =
    valid-undescribed _ base (undescribed-merge_editable_descriptions base edited).0
