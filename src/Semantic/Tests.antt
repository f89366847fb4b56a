-- ===== src/Semantic/Tests.antt =====
-- The theorems on semantic layers at a schema with one table.
use mission.Prelude.{◌≡◌, refl, arith, false, some, List, [], ◌∷◌, map, inl}
use mission.Prelude.Equality.{text_beq}
use mission.Prelude.Text.{Text, codes, trim_space}
use mission.Prelude.Dict.{lookup, insert}
use mission.Semantic.Types.{SemanticLayerContent, SchemaBlob, TenantSemanticLayer}
use mission.Semantic.Content.{
  hydrate_semantic_layer_from_schema, merge_editable_descriptions, validate_semantic_layer_content,
}
use mission.Semantic.Structure.{
  undescribed, skeleton, undescribed-hydrate_semantic_layer_from_schema,
}
use mission.Semantic.Layers.{get_by_id, new_draft, approve_row}
use mission.Semantic.Unique.{IsUnique, count}
use mission.Prelude.Actions.{found, ok}
use mission.Semantic.Methods.{Env, Store, SemanticLayerRecord, update}
use mission.Semantic.Requests.{Call, drafting, updating, approving, serve, serve-IsUnique}
use mission.Semantic.Updated.{Updated, update-Updated}
use mission.Semantic.Changes.{Pairs, Approving, approve_row-Approving}

abbrev schema : SchemaBlob
schema = record {
  tables =
      record {
        table_schema = codes "s";
        table_name = codes "t";
        table_type = codes "BASE TABLE";
        table_comment = [];
      }
      ∷ [];
  columns =
      record {
        table_schema = codes "s";
        table_name = codes "t";
        column_name = codes "c";
        ordinal_position = 1;
        data_type = codes "int";
        column_type = codes "int";
        is_nullable = false;
        column_comment = [];
      }
      ∷ [];
}

-- What the model or a user says of the table.
abbrev described : Text → SemanticLayerContent
described words = record {
  tables =
      record {
        table_schema = codes "s";
        table_name = codes "t";
        table_type = codes "BASE TABLE";
        table_comment = [];
        description = words;
        columns =
            record {
              table_schema = codes "s";
              table_name = codes "t";
              column_name = codes "c";
              ordinal_position = 1;
              data_type = codes "int";
              column_type = codes "int";
              is_nullable = false;
              column_comment = [];
              description = words;
            }
            ∷ [];
      }
      ∷ [];
  entities = [];
  candidate_metrics = [];
}

abbrev env : Env
env = record {
  membership = λ user. found tt;
  latest_schema = found (record { id = 5; blob = some schema });
  schema_by_id = λ id. found (record { id = id; blob = some schema });
  complete = λ version. some (record { content = some (described (codes " words ")); usage = 12 });
  faults = λ n. false;
  now = 20;
}

abbrev empty : Store
empty = record { rows = []; next_id = 0; calls = 0 }

-- A draft, approved, then edited.
abbrev calls : List Call
calls =
    record { env = env; tenant = 7; user = codes "u"; request = drafting 5 }
    ∷ record { env = env; tenant = 7; user = codes "u"; request = approving 0 }
    ∷ record {
      env = env;
      tenant = 7;
      user = codes "u";
      request = updating 0 (described (codes "better"));
    }
    ∷ []

empty-IsUnique : IsUnique 0 []
unfolding count
empty-IsUnique = record {
  ids = λ i. omega arith;
  fresh = λ i h. refl;
  one_draft = λ t v. omega arith;
  one_approved = λ t v. omega arith;
}

serve-IsUnique_example : IsUnique (serve calls empty).next_id (serve calls empty).rows
serve-IsUnique_example = serve-IsUnique calls empty empty-IsUnique

undescribed-hydrate_semantic_layer_from_schema_example :
    map undescribed (hydrate_semantic_layer_from_schema schema (described (codes "words"))).tables
    ≡ skeleton schema
undescribed-hydrate_semantic_layer_from_schema_example =
    undescribed-hydrate_semantic_layer_from_schema schema (described (codes "words"))

-- An edit is seen.
merge_test :
    merge_editable_descriptions (described []) (described (codes "words"))
    ≡ described (codes "words")
unfolding merge_editable_descriptions lookup insert text_beq
merge_test = refl

hydrate_test :
    hydrate_semantic_layer_from_schema schema (described (codes " words "))
    ≡ described (codes "words")
unfolding hydrate_semantic_layer_from_schema lookup insert text_beq trim_space
hydrate_test = refl

abbrev first : TenantSemanticLayer
first = new_draft 0 7 5 (described []) 10

abbrev drafted : Store
drafted = record { rows = first ∷ []; next_id = 1; calls = 0 }

first-IsUnique : IsUnique 1 (first ∷ [])
unfolding count
first-IsUnique = record {
  ids = λ i. ground arith;
  fresh = λ i h. ground (arith, h);
  one_draft = λ t v. ground arith;
  one_approved = λ t v. ground arith;
}

approve_row-Approving_example :
    Pairs
      (Approving first 20 (codes "u"))
      (first ∷ [])
      (approve_row first 20 (codes "u") (first ∷ []))
approve_row-Approving_example =
    approve_row-Approving first 20 (codes "u") 1 (first ∷ []) first-IsUnique (inl refl)

update-Updated_example :
    (shown : SemanticLayerRecord) × ((w' : Store) × ((update env 7
            (codes "u")
            0
            (described (codes "words"))
            drafted
          ≡ (ok shown, w'))
        × Updated env 7 drafted first (described []) (described (codes "words")) shown w'))
unfolding get_by_id validate_semantic_layer_content trim_space
update-Updated_example =
    update-Updated env 7 (codes "u") drafted 0 first (described []) (described (codes "words")) refl
      refl refl refl refl refl refl
