-- ===== src/Models/Types.antt =====
-- internal/protocol/models.go, internal/runtime/providers.go and registry.go: models and endpoints.
use modeltap.Prelude.{ℕ, String, Bool, List}

-- The costs are float64, by their bits.
pub record ModelInfo : Type 0 where
  pub name : String
  pub provider : String
  pub roles : List String
  pub capabilities : List String
  pub context_window : ℕ
  pub cost_per_1k_input : ℕ
  pub cost_per_1k_output : ℕ
  pub description : String
  pub status : String
  pub access : String

pub data ModelSource : Type 0 where
  builtin discovered manual : ModelSource

pub record ModelEntry : Type 0 where
  pub info : ModelInfo
  pub provider : String
  pub source : ModelSource
  pub available : Bool

pub record ModelOverrideConfig : Type 0 where
  pub provider : String
  pub context_window : ℕ
  pub capabilities : List String
  pub description : String

-- The fields of a ProviderEndpoint that the registry reads; `status` may be empty.
pub record ProviderEndpoint : Type 0 where
  pub name : String
  pub type : String
  pub discover : Bool
  pub status : String
  pub models : List String
