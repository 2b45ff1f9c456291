-- ===== src/Runtime/Hosting.antt =====
-- workspace_agent_harness/__init__.py: the registered packs and the configuration of a
-- `GeneralAgentRuntime`, and the host, which is what it calls outside, over a world `W`: the model, the
-- clock and `json.loads` of the loop, the tools, the workspace adapter, the entries of a directory
-- and the evaluator's process.
use pan_agent.Base.{ℕ, String, Bool, Option, List}
use pan_agent.Base.Int.{ℤ}
use pan_agent.Base.Result.{Result}
use pan_agent.Base.Text.{Text}
use pan_agent.Base.Json.{Json}
use pan_agent.Limits.{RuntimeConfig}
use pan_agent.Paths.{FilePath}
use pan_agent.Authority.{CapabilityGrant}
use pan_agent.Tools.{Arguments, Denial}
use pan_agent.Loop.{Message, ToolOutcome}
use pan_agent.Snapshots.{Bytes, FileError, ProtectedFixtureRef, Kind}
use pan_agent.Campaign.Types.{PackSelector, RuntimeProvenance}
use pan_agent.Runtime.Types.{PackManifest, DomainRunSpec, EvaluationVerdict, EvaluationEvidence}
use pan_agent.Runtime.Evaluator.{Poll}
use pan_agent.Runtime.Checks.{AdapterIdentities, PackState}

-- `_RegisteredPack`; `compile_task` raises or returns.
pub record RegisteredPack : Type 0 where
  pub manifest : PackManifest
  pub manifest_digest : String
  pub compile_task : Json → Result String DomainRunSpec

-- The runtime: its configuration and registry, and what its adapters declare
pub record Runtime (Tool : Type 0) : Type 0 where
  pub config : RuntimeConfig FilePath
  pub authority_ceiling : List CapabilityGrant
  pub packs : List RegisteredPack
  pub provenance : RuntimeProvenance
  pub capabilities : String → Option Tool

pub record Host (W Tool : Type 0) : Type 0 where
  pub adapters : W → AdapterIdentities
  pub pack_state : PackSelector → W → PackState
  pub tool_name : Tool → Option String
  pub delegate : Tool → Arguments → W → ToolOutcome × W
  pub monotonic : W → ℤ × W
  pub respond : List Message → W → Result String String × W
  pub loads : String → Option Json
  pub repr : Option Json → String
  pub uuid : W → String × W
  pub resolve : FilePath → FilePath
  pub stage : Option (ProtectedFixtureRef → FilePath → W → Result FileError (Unit {0}) × W)
  pub entries : FilePath → W → List (Text × Kind)
  pub evaluate : EvaluationEvidence → W → (Poll × Poll) × W
  pub fork_supported : Bool
  pub verdict_size : EvaluationVerdict → ℕ
  pub hexdigest : Bytes → String
  pub encode : Text → Bytes
  pub directory : FilePath → String → FilePath
  pub denial_text : Denial → String
  pub file_error_text : FileError → String
