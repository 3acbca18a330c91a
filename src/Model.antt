-- ===== src/Model.antt =====
-- fleet_control/model.py: the data that a plan is made from. A time is a natural number of
-- microseconds, a span in the source's seconds is multiplied by `second`, and a fraction is given in
-- millionths. The checks of the constructors are in the child modules.
pub mod Atoms
pub mod Paths
pub mod Orders
pub mod Proofs
pub mod Routes
pub mod Admitted
pub mod DotPaths
pub mod Decode
pub mod Encode
pub mod Reread
use idol_id_agents.Prelude.{ℕ, ◌*◌, Text, text, Bool, List, Option}

abbrev pub second : ℕ
second = 1000000

-- The fraction 1.
abbrev pub whole : ℕ
whole = 1000000

pub data BillingClass : Type 0 where
  local included paygo purchased topup unknown : BillingClass

pub record ProofSubjectFile : Type 0 where
  pub path : Text
  pub file_type : Text
  pub device : ℕ
  pub inode : ℕ
  pub mode : ℕ
  pub uid : ℕ
  pub gid : ℕ
  pub size : ℕ
  pub mtime_ns : ℕ
  pub ctime_ns : ℕ
  pub sha256 : Text

pub record BillingProof : Type 0 where
  pub kind : Text
  pub subject_hash : Text
  pub observed_at : ℕ
  pub expires_at : ℕ
  pub evidence_hash : Text
  pub trusted : Bool
  pub subject_files : List ProofSubjectFile

pub record AllowanceWindow : Type 0 where
  pub label : Text
  pub remaining_fraction : ℕ
  pub resets_at : ℕ

pub record Route : Type 0 where
  pub id : Text
  pub provider : Text
  pub model : Text
  pub provider_family : Text
  pub runtime : Text
  pub command : List Text
  pub parser : Text
  pub billing : BillingClass
  pub proof : BillingProof
  pub roles : List Text
  pub auth_env : List Text
  pub timeout_seconds : ℕ
  pub max_parallel : ℕ
  pub premium : Bool
  pub enabled : Bool
  pub allowance : List AllowanceWindow
  pub proof_command : List Text
  pub proof_expect : Text
  pub proof_subject_files : List Text
  pub usage_command : List Text
  pub usage_auth_env : List Text
  pub usage_timeout_seconds : ℕ
  pub usage_max_age_seconds : ℕ
  pub usage_required : Bool

pub record Coordination : Type 0 where
  pub mode : Text
  pub recipient : Text
  pub parent_task : Text
  pub parent_subject : Text
  pub hypothesis : Text
  pub attempts : ℕ
  pub allowance : ℕ
  pub recovery : Text
  pub question : Text
  pub artifact : Text
  pub recipe : Text
  pub prerequisites : List Text

pub record WorkOrder : Type 0 where
  pub id : Text
  pub task_id : Text
  pub repository : Text
  pub base_sha : Text
  pub branch : Text
  pub role : Text
  pub required_outcome : Text
  pub path_claims : List Text
  pub semantic_claims : List Text
  pub stop_conditions : List Text
  pub witnesses : List (List Text)
  pub route_ids : List Text
  pub authority_files : List Text
  pub risk : Text
  pub priority : ℕ
  pub estimated_seconds : ℕ
  pub estimated_tokens : ℕ
  pub reviewer_family : Option Text
  pub issue : Option Text
  pub publish_branch : Bool
  pub create_draft_pr : Bool
  pub follow_remote_main : Bool
  pub allow_no_change : Bool
  pub coordination : Option Coordination
