-- ===== src/Llm/Request.antt =====
-- llm.go of internal/controlplane/gateway/llm: requests and responses as the router reads them.
-- `Model` and `ProviderModels` are trimmed by the code, so they are texts; the parts that the
-- router only hands on are plain values.
use mission.Prelude.{ℕ, Option, none, some, List, [], ◌∷◌, String, if◌then◌else◌, text_test}
use mission.Prelude.Text.{Text, trim_space, is_empty}
use mission.Prelude.Dict.{Dict, lookup, insert}

pub record Message : Type 0 where
  pub role : String
  pub content : String
  pub cached_content : String

pub record CompletionRequest : Type 0 where
  pub system : String
  pub messages : List Message
  pub operation : Text
  pub model : Text
  pub provider_models : Dict Text Text
  pub max_tokens : ℕ

pub record Usage : Type 0 where
  pub input_tokens : ℕ
  pub output_tokens : ℕ
  pub cache_creation_input_tokens : ℕ
  pub cache_read_input_tokens : ℕ

pub record CompletionResponse : Type 0 where
  pub content : String
  pub provider : Text
  pub model : Text
  pub usage : Usage

-- A Go map gives the zero value at a missing key.
abbrev text_or_zero : Option Text → Text
text_or_zero none = []
text_or_zero (some t) = t

unfoldable pub model_for_provider : CompletionRequest → Text → Text
model_for_provider r name =
    let override = trim_space (text_or_zero (lookup name r.provider_models)) in
    if is_empty override then trim_space r.model else override

clone_onto : Dict Text Text → Dict Text Text → Dict Text Text
clone_onto out [] = out
clone_onto out ((key, value) ∷ rest) =
    let k = trim_space key in
    let v = trim_space value in
    clone_onto (if is_empty k then out else if is_empty v then out else insert k v out) rest

-- The nil map is the empty one.
unfoldable pub clone_provider_models : Dict Text Text → Dict Text Text
unfolding clone_onto
clone_provider_models models = clone_onto [] models
