-- ===== src/Semantic/Types.antt =====
-- The data of internal/controlplane/model/semantic_layer.go and, as far as the semantic layer reads it, of
-- internal/controlplane/model/schema.go.
use mission.Prelude.{ℕ, Bool, Option, List}
use mission.Prelude.Text.{Text}

pub record SemanticColumn : Type 0 where
  pub table_schema : Text
  pub table_name : Text
  pub column_name : Text
  pub ordinal_position : ℕ
  pub data_type : Text
  pub column_type : Text
  pub is_nullable : Bool
  pub column_comment : Text
  pub description : Text

pub record SemanticTable : Type 0 where
  pub table_schema : Text
  pub table_name : Text
  pub table_type : Text
  pub table_comment : Text
  pub description : Text
  pub columns : List SemanticColumn

pub record SemanticEntity : Type 0 where
  pub name : Text
  pub description : Text
  pub source_tables : List Text

pub record CandidateMetric : Type 0 where
  pub name : Text
  pub description : Text
  pub source_tables : List Text

pub record SemanticLayerContent : Type 0 where
  pub tables : List SemanticTable
  pub entities : List SemanticEntity
  pub candidate_metrics : List CandidateMetric

pub record SchemaTable : Type 0 where
  pub table_schema : Text
  pub table_name : Text
  pub table_type : Text
  pub table_comment : Text

pub record SchemaColumn : Type 0 where
  pub table_schema : Text
  pub table_name : Text
  pub column_name : Text
  pub ordinal_position : ℕ
  pub data_type : Text
  pub column_type : Text
  pub is_nullable : Bool
  pub column_comment : Text

pub record SchemaBlob : Type 0 where
  pub tables : List SchemaTable
  pub columns : List SchemaColumn

pub data SemanticLayerStatus : Type 0 where
  draft approved archived : SemanticLayerStatus

-- `content` is the JSON decoded; `none` is JSON that is not a layer's.
pub record TenantSemanticLayer : Type 0 where
  pub id : ℕ
  pub tenant_id : ℕ
  pub schema_version_id : ℕ
  pub status : SemanticLayerStatus
  pub content : Option SemanticLayerContent
  pub created_at : ℕ
  pub approved_at : Option ℕ
  pub approved_by_user_id : Option Text
