-- ===== src/Schemas.antt =====
-- app/schemas/api.py: requests, responses and what they carry. `Any` is the type `Value`; numbers
-- that the source keeps as floats (cost, score, confidence) are counted in hundredths.
use ochestrate.Base.{ℕ, Bool, Option, List}
use ochestrate.Text.{Text}
use ochestrate.Dict.{Dict}

-- A JSON-like value, the `Any` of parameters and options.
mutual
  pub data Value : Type 0 where
    null : Value
    bool : Bool → Value
    num : ℕ → Value
    str : Text → Value
    arr : Values → Value
    obj : Fields → Value

  pub data Values : Type 0 where
    nil : Values
    cons : Value → Values → Values

  pub data Fields : Type 0 where
    end : Fields
    field : Text → Value → Fields → Fields

abbrev pub Params : Type 0
Params = Dict Text Value

pub record ToolPayload : Type 0 where
  pub operation : Text
  pub resource_type : Text
  pub resource_path : Option Text
  pub url : Option Text
  pub sql : Option Text
  pub options : Fields
  pub content : Value

pub data Sensitivity : Type 0 where
  low medium high : Sensitivity

pub record ExecutionPolicy : Type 0 where
  pub sensitivity : Sensitivity
  pub max_cost_usd : ℕ
  pub auto_execute : Bool
  pub require_human_review : Bool
  pub timeout_seconds : ℕ
  pub confirm_write : Bool

pub data TaskType : Type 0 where
  qa automation analysis : TaskType

pub data SkillContextMode : Type 0 where
  auto force_all : SkillContextMode

pub record UnifiedRequest : Type 0 where
  pub tenant_id : Option Text
  pub user_id : Option Text
  pub session_id : Text
  pub task_type : TaskType
  pub input : Text
  pub context_refs : List Text
  pub policy : ExecutionPolicy
  pub metadata : Params
  pub tool_payload : Option ToolPayload
  pub tool_overrides : Dict Text Params
  pub skill_context_mode : SkillContextMode

pub record Citation : Type 0 where
  pub source_id : Text
  pub chunk_id : Text
  pub snippet : Text
  pub score : ℕ

pub data ActionStatus : Type 0 where
  success skipped failed : ActionStatus

pub record Action : Type 0 where
  pub tool_name : Text
  pub status : ActionStatus
  pub output : Params
  pub error_code : Option Text
  pub audit_ref : Option Text
  pub policy_applied : Params

pub data MemoryType : Type 0 where
  short long : MemoryType

pub record MemoryUpdate : Type 0 where
  pub memory_type : MemoryType
  pub content : Text

pub record UnifiedResponse : Type 0 where
  pub answer : Text
  pub citations : List Citation
  pub actions : List Action
  pub confidence : ℕ
  pub trace_id : Text
  pub memory_updates : List MemoryUpdate
  pub fallback_triggered : Bool

pub data TaskStatus : Type 0 where
  queued running completed failed : TaskStatus

pub record TaskStatusResponse : Type 0 where
  pub task_id : Text
  pub status : TaskStatus
  pub trace_id : Option Text
  pub result : Option UnifiedResponse
  pub error : Option Text
