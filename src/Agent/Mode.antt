-- ===== src/Agent/Mode.antt =====
-- Modes and the tools that each of them offers: internal/agent/mode.go, with the types of
-- internal/extensions/tools/registry.go and internal/extensions/manifest/manifest.go.
pub mod Offers
pub mod State
use falken_core.Base.{
  ℕ, List, [], ◌∷◌, Bool, true, false, not, ◌&&◌, ◌||◌, Option, none, some, if◌then◌else◌, is_nil,
  any,
}
use falken_core.Base.Int.{ℤ, pos}
use falken_core.Base.Text.{Text, codes, text_eq, trim_space, to_lower, replace_char, has_key}
use falken_core.Base.Text.Fields.{contains}
use falken_core.Policy.Rules.{MatchKind, FileAccessMode, file_access_write, file_access_create}

abbrev pub Mode : Type 0
Mode = Text

abbrev pub mode_default : Mode
mode_default = codes "default"

abbrev pub mode_plan : Mode
mode_plan = codes "plan"

pub record FilePermission : Type 0 where
  pub path : Text
  pub match : MatchKind
  pub modes : List FileAccessMode

pub record NetworkPermission : Type 0 where
  pub host : Text
  pub match : MatchKind

pub record ShellPermission : Type 0 where
  pub command : Text
  pub match : MatchKind

pub record DeclaredPermissions : Type 0 where
  pub files : List FilePermission
  pub network : List NetworkPermission
  pub shell : List ShellPermission

pub record Safety : Type 0 where
  pub plan_safe : Bool
  pub reads_workspace : Bool
  pub mutates_workspace : Bool
  pub executes_shell : Bool
  pub uses_network : Bool
  pub uses_host_state : Bool
  pub reads_host_state : Bool
  pub mutates_host_state : Bool

pub record Entry : Type 0 where
  pub name : Text
  pub description : Text
  pub input_schema : List ℕ
  pub category : Text
  pub keywords : List Text
  pub always_load : Bool
  pub default_load : Bool
  pub package_name : Text
  pub package_desc : Text
  pub source_dir : Text
  pub manifest_path : Text
  pub wasm_path : Text
  pub runtime : Text
  pub safety : Safety
  pub permissions : DeclaredPermissions
  pub manifest_version : ℤ

pub record ToolPolicyDecision : Type 0 where
  pub allowed : Bool
  pub mode : Mode
  pub tool : Text
  pub reason : Text

abbrev no_safety : Safety
no_safety = record {
  plan_safe = false;
  reads_workspace = false;
  mutates_workspace = false;
  executes_shell = false;
  uses_network = false;
  uses_host_state = false;
  reads_host_state = false;
  mutates_host_state = false;
}

-- tools.Entry{Name: name}
abbrev pub named : Text → Entry
named name = record {
  name = name;
  description = [];
  input_schema = [];
  category = [];
  keywords = [];
  always_load = false;
  default_load = false;
  package_name = [];
  package_desc = [];
  source_dir = [];
  manifest_path = [];
  wasm_path = [];
  runtime = [];
  safety = no_safety;
  permissions = record { files = []; network = []; shell = [] };
  manifest_version = pos 0;
}

-- entry.Safety == (tools.Safety{})
abbrev pub is_no_safety : Safety → Bool
is_no_safety s = not (
    s.plan_safe || s.reads_workspace || s.mutates_workspace || s.executes_shell || s.uses_network
    || s.uses_host_state || s.reads_host_state || s.mutates_host_state)

unfoldable pub normalize_policy_term : Text → Text
normalize_policy_term value =
    replace_char b' ' b'_' (replace_char b'-' b'_' (to_lower (trim_space value)))

abbrev planning_state_tools : List Text
planning_state_tools =
    codes "read_plan"
    ∷ codes "read_todos"
    ∷ codes "write_todos"
    ∷ codes "read_command_evidence"
    ∷ codes "submit_plan_implementation"
    ∷ []

unfoldable pub planning_state_tool_allowed_in_default : Text → Bool
planning_state_tool_allowed_in_default tool_name =
    has_key (normalize_policy_term tool_name) planning_state_tools

-- strings.EqualFold at "planning", whose letters fold in ASCII only
unfoldable pub is_planning_tool : Entry → Bool
is_planning_tool entry =
    has_key (normalize_policy_term entry.name) (codes "write_plan" ∷ planning_state_tools)
    || (text_eq entry.package_name (codes "falken-core")
        && text_eq (to_lower entry.category) (codes "planning"))

abbrev pub is_mutation_mode : FileAccessMode → Bool
is_mutation_mode mode = text_eq mode file_access_write || text_eq mode file_access_create

unfoldable pub file_capability_block_reason : List FilePermission → Text
file_capability_block_reason [] = []
file_capability_block_reason (file ∷ files) =
    let rest = file_capability_block_reason files in
    if is_nil file.modes
    then codes "tool declares broad file capability and is blocked in plan mode"
    else if any is_mutation_mode file.modes
    then codes "tool declares file mutation capability and is blocked in plan mode"
    else rest

abbrev pub no_permissions : Entry → Bool
no_permissions entry =
    is_nil entry.permissions.files
    && is_nil entry.permissions.shell
    && is_nil entry.permissions.network

abbrev blocked_fragments : List Text
blocked_fragments =
    codes "write"
    ∷ codes "create"
    ∷ codes "overwrite"
    ∷ codes "edit"
    ∷ codes "patch"
    ∷ codes "delete"
    ∷ codes "remove"
    ∷ codes "shell"
    ∷ codes "command"
    ∷ codes "exec"
    ∷ codes "run_command"
    ∷ codes "background"
    ∷ codes "process"
    ∷ codes "deploy"
    ∷ []

unfoldable pub plan_blocked_tool_name : Text → Bool
plan_blocked_tool_name name = any (contains name) blocked_fragments

abbrev refused : Entry → Text → ToolPolicyDecision
refused entry reason = record {
  allowed = false;
  mode = mode_plan;
  tool = entry.name;
  reason = reason;
}

abbrev granted : Entry → Text → ToolPolicyDecision
granted entry reason = record {
  allowed = true;
  mode = mode_plan;
  tool = entry.name;
  reason = reason;
}

unfoldable pub plan_mode_tool_decision : Entry → ToolPolicyDecision
plan_mode_tool_decision entry =
    let s = entry.safety in
    let reason = file_capability_block_reason entry.permissions.files in
    if s.mutates_workspace
    then refused entry (codes "tool declares file mutation capability and is blocked in plan mode")
    else if not (is_nil reason)
    then refused entry reason
    else if s.executes_shell || not (is_nil entry.permissions.shell)
    then refused entry (codes "tool declares shell capability and is blocked in plan mode")
    else if s.uses_network || not (is_nil entry.permissions.network)
    then refused entry (codes "tool declares network capability and is blocked in plan mode")
    else if s.mutates_host_state && not s.plan_safe
    then refused entry (codes "tool mutates host state but is not explicitly plan-safe")
    else if s.plan_safe
    then granted entry (codes "tool declares plan-safe behavior")
    else if plan_blocked_tool_name (normalize_policy_term entry.name)
    then refused entry (codes "tool name is mutating or command-like and is blocked in plan mode")
    else if is_no_safety s && no_permissions entry
    then refused entry (codes "tool does not declare safety or permissions")
    else granted entry (codes "tool declares no mutating, shell, or network capabilities")

-- Whether default mode keeps the entry from the tools.
abbrev pub is_plan_only : Entry → Bool
is_plan_only entry =
    is_planning_tool entry && not (planning_state_tool_allowed_in_default entry.name)

abbrev in_default : Entry → ToolPolicyDecision
in_default entry =
    if is_plan_only entry
    then record {
      allowed = false;
      mode = mode_default;
      tool = entry.name;
      reason = codes "planning tools are only available in plan mode";
    }
    else record {
      allowed = true;
      mode = mode_default;
      tool = entry.name;
      reason = codes "default mode allows active tools";
    }

unfoldable pub is_tool_allowed : Mode → Entry → ToolPolicyDecision
is_tool_allowed mode entry =
    if text_eq mode mode_default
    then in_default entry
    else if not (text_eq mode mode_plan)
    then record {
      allowed = false;
      mode = mode;
      tool = entry.name;
      reason = codes "unsupported mode";
    }
    else plan_mode_tool_decision entry

abbrev pub keep : (Entry → Bool) → List Entry → List Entry
keep test [] = []
keep test (entry ∷ entries) = if test entry then entry ∷ keep test entries else keep test entries

-- ErrUnsupportedMode is `none`.
unfoldable pub filter_tools : Mode → List Entry → Option (List Entry)
filter_tools mode available =
    if text_eq mode mode_default
    then some (keep (λ e. not (is_plan_only e)) available)
    else if not (text_eq mode mode_plan)
    then none
    else some (keep (λ e. (is_tool_allowed mode e).allowed) available)

abbrev unknown_tool : Mode → Text → ToolPolicyDecision
unknown_tool mode tool_name =
    if text_eq mode mode_default then in_default (named tool_name) else record {
      allowed = false;
      mode = mode;
      tool = tool_name;
      reason = codes "tool is not known to be read/planning-safe in plan mode";
    }

unfoldable pub check_tool_call : Mode → Text → List Entry → ToolPolicyDecision
check_tool_call mode tool_name [] = unknown_tool mode tool_name
check_tool_call mode tool_name (entry ∷ available) =
    let rest = check_tool_call mode tool_name available in
    if text_eq entry.name tool_name then is_tool_allowed mode entry else rest
