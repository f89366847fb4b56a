-- ===== src/Semantic/Descriptions.antt =====
-- What `mergeEditableDescriptions` of internal/controlplane/controller/semantic_layer.go does to each description.
use mission.Prelude.{
  ◌≡◌, ◌≢◌, refl, sym, ap, ◌∙◌, arith, Bool-cases, inl, inr, Option, none, some, List, [], ◌∷◌,
  ◌++◌, map, All,
}
use mission.Prelude.Text.{Text}
use mission.Prelude.Equality.{text_test, ◌==◌}
use mission.Prelude.Dict.{Dict, lookup, insert, lookup-insert}
use mission.Semantic.Types.{SemanticColumn, SemanticTable, SemanticLayerContent}
use mission.Semantic.Content.{
  table_descriptions, column_descriptions, all_column_descriptions, text_or, merged_column,
  merged_table, merge_editable_descriptions, fq_table, fq_column,
}
use mission.Semantic.Structure.{undescribed_column}
use mission.Semantic.Changes.{Pairs}

module _ {A : Type 0} (key words : A → Text) where
  -- What an edit by some entries makes of the text under a key: the words of the last entry that has the
  -- key, or the old text when none has.
  pub data Edited (entries : List A) (k old new : Text) : Type 0 where
    replaced :
        (pre post : List A) (e : A)
        → entries ≡ pre ++ e ∷ post
        → key e ≡ k
        → All (λ x. key x ≢ k) post
        → new ≡ words e
        → Edited entries k old new
    unedited : All (λ x. key x ≢ k) entries → new ≡ old → Edited entries k old new

  -- The map of the entries' words.
  unfoldable filed : List A → Dict Text Text → Dict Text Text
  filed [] d = d
  filed (e ∷ es) d = filed es (insert (key e) (words e) d)

  filed-append : (es fs : List A) (d : Dict Text Text) → filed (es ++ fs) d ≡ filed fs (filed es d)
  unfolding filed
  filed-append [] fs d = refl
  filed-append (e ∷ es) fs d = filed-append es fs (insert (key e) (words e) d)

  data Last (k : Text) (es : List A) (old new : Option Text) : Type 0 where
    last :
        (pre post : List A) (e : A)
        → es ≡ pre ++ e ∷ post
        → key e ≡ k
        → All (λ x. key x ≢ k) post
        → new ≡ some (words e)
        → Last k es old new
    absent : All (λ x. key x ≢ k) es → new ≡ old → Last k es old new

  lookup-filed :
      (k : Text) (es : List A) (d : Dict Text Text) → Last k es (lookup k d) (lookup k (filed es d))
  unfolding filed
  lookup-filed k [] d = absent tt refl
  lookup-filed k (e ∷ es) d = later (lookup-filed k es (insert (key e) (words e) d))
    where
      later :
          {new : Option Text}
          → Last k es (lookup k (insert (key e) (words e) d)) new
          → Last k (e ∷ es) (lookup k d) new
      later (last pre post f h same none_later shown) =
          last (e ∷ pre) post f (ap (λ xs. e ∷ xs) h) same none_later shown
      later (absent all shown) = elim (Bool-cases (key e == k)) [
        | inl h ↦
            last [] es e refl ((text_test.same_iff (key e) k).0 h) all
              (shown ∙ (lookup-insert (key e) k (words e) d ∙ rw h refl))
        | inr h ↦
            absent (λ s. absurd (ground (arith, h, (text_test.same_iff (key e) k).1 s)), all)
              (shown ∙ (lookup-insert (key e) k (words e) d ∙ rw h refl))
      ]

  text_or-filed :
      (k : Text) (es : List A) (d : Dict Text Text) (old : Text)
      → d ≡ filed es []
      → Edited es k old (text_or k d old)
  unfolding lookup
  text_or-filed k es d old e = go (lookup-filed k es [])
    where
      chosen : Option Text → Text
      chosen o = elim o as (λ _. Text) [ none ↦ old | some v ↦ v ]

      go : Last k es none (lookup k (filed es [])) → Edited es k old (text_or k d old)
      go (last pre post f h same none_later shown) =
          replaced pre post f h same none_later (ap (λ x. chosen (lookup k x)) e ∙ ap chosen shown)
      go (absent all shown) = unedited all (ap (λ x. chosen (lookup k x)) e ∙ ap chosen shown)

-- The qualified names.
abbrev pub table_name_of : SemanticTable → Text
table_name_of t = t.table_schema ++ b'.' ∷ t.table_name

abbrev pub column_name_of : SemanticColumn → Text
column_name_of c = c.table_schema ++ b'.' ∷ (c.table_name ++ b'.' ∷ c.column_name)

unfoldable pub columns_in : List SemanticTable → List SemanticColumn
columns_in [] = []
columns_in (t ∷ ts) = t.columns ++ columns_in ts

-- A column and a table after an edit.
pub record EditedColumn (edits : List SemanticTable) (before after : SemanticColumn) : Type 0 where
  pub kept : undescribed_column after ≡ undescribed_column before
  pub description :
      Edited column_name_of
        (λ c. c.description)
        (columns_in edits)
        (column_name_of before)
        before.description
        after.description

pub record EditedTable (edits : List SemanticTable) (before after : SemanticTable) : Type 0 where
  pub table_schema : after.table_schema ≡ before.table_schema
  pub table_name : after.table_name ≡ before.table_name
  pub table_type : after.table_type ≡ before.table_type
  pub table_comment : after.table_comment ≡ before.table_comment
  pub description :
      Edited table_name_of
        (λ t. t.description)
        edits
        (table_name_of before)
        before.description
        after.description
  pub columns : Pairs (EditedColumn edits) before.columns after.columns

pub record EditedContent (base edited after : SemanticLayerContent) : Type 0 where
  pub tables : Pairs (EditedTable edited.tables) base.tables after.tables
  pub entities : after.entities ≡ base.entities
  pub candidate_metrics : after.candidate_metrics ≡ base.candidate_metrics

-- The maps of the code are the filed entries.
table_descriptions-filed :
    (ts : List SemanticTable) (d : Dict Text Text)
    → table_descriptions (λ s. s) ts d ≡ filed table_name_of (λ t. t.description) ts d
unfolding table_descriptions filed
table_descriptions-filed [] d = refl
table_descriptions-filed (t ∷ ts) d =
    table_descriptions-filed ts (insert (fq_table t.table_schema t.table_name) t.description d)

column_descriptions-filed :
    (cs : List SemanticColumn) (d : Dict Text Text)
    → column_descriptions (λ s. s) cs d ≡ filed column_name_of (λ c. c.description) cs d
unfolding column_descriptions filed
column_descriptions-filed [] d = refl
column_descriptions-filed (c ∷ cs) d =
    column_descriptions-filed cs
      (insert (fq_column c.table_schema c.table_name c.column_name) c.description d)

all_column_descriptions-filed :
    (ts : List SemanticTable) (d : Dict Text Text)
    → all_column_descriptions (λ s. s) ts d
      ≡ filed column_name_of (λ c. c.description) (columns_in ts) d
unfolding all_column_descriptions filed columns_in
all_column_descriptions-filed [] d = refl
all_column_descriptions-filed (t ∷ ts) d =
    all_column_descriptions-filed ts (column_descriptions (λ s. s) t.columns d)
    ∙ (ap (filed column_name_of (λ c. c.description) (columns_in ts))
          (column_descriptions-filed t.columns d)
        ∙ sym (filed-append column_name_of (λ c. c.description) t.columns (columns_in ts) d))

Pairs-map :
    {A : Type 0} (R : A → A → Type 0) (f : A → A)
    → ((x : A) → R x (f x))
    → (xs : List A) → Pairs R xs (map f xs)
unfolding Pairs
Pairs-map R f h [] = tt
Pairs-map R f h (x ∷ xs) = (h x, Pairs-map R f h xs)

module _ (edits : List SemanticTable) where
  merged_column-EditedColumn :
      (c : SemanticColumn)
      → EditedColumn edits c (merged_column (all_column_descriptions (λ s. s) edits []) c)
  merged_column-EditedColumn c = record {
    kept = refl;
    description =
        text_or-filed column_name_of (λ x. x.description) (column_name_of c) (columns_in edits) _
          c.description (all_column_descriptions-filed edits []);
  }

  merged_table-EditedTable :
      (t : SemanticTable)
      → EditedTable edits t (
          merged_table
            (table_descriptions (λ s. s) edits [])
            (all_column_descriptions (λ s. s) edits [])
            t)
  merged_table-EditedTable t = record {
    table_schema = refl;
    table_name = refl;
    table_type = refl;
    table_comment = refl;
    description =
        text_or-filed table_name_of (λ x. x.description) (table_name_of t) edits _ t.description
          (table_descriptions-filed edits []);
    columns = Pairs-map (EditedColumn edits) _ merged_column-EditedColumn t.columns;
  }

pub merge_editable_descriptions-EditedContent :
    (base edited : SemanticLayerContent)
    → EditedContent base edited (merge_editable_descriptions base edited)
unfolding merge_editable_descriptions
merge_editable_descriptions-EditedContent base edited = record {
  tables =
      Pairs-map (EditedTable edited.tables) _ (merged_table-EditedTable edited.tables) base.tables;
  entities = refl;
  candidate_metrics = refl;
}
