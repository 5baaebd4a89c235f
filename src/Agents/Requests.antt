-- ===== src/Agents/Requests.antt =====
-- internal/runtime/agents.go: what an agent is asked and what it answers. A workspace is known by a
-- number.
use code_co_driver.Prelude.{ℕ, String, Option, List}
use code_co_driver.Domain.{Task, Repository, RepositoryFile, Symbol, Artifact}
use code_co_driver.Agents.Values.{Value, Fields}

-- The gateway of the tools is left out: what an agent does with it is its own affair.
pub record AgentRequest (F : Type 0) : Type 0 where
  pub task : Task
  pub repository : Repository
  pub files : List RepositoryFile
  pub symbols : List Symbol
  pub artifacts : List Artifact
  pub context : Fields F
  pub attempt : ℕ
  pub workspace : Option ℕ

pub record AgentResult (F : Type 0) : Type 0 where
  pub output : Value F
  pub artifact_type : String
  pub artifact_name : String
  pub artifact_content : String

-- `ReviewApprove` and the other decisions of a review.
abbrev pub review_approve : String
review_approve = "APPROVE_PROPOSAL"

abbrev pub review_request_changes : String
review_request_changes = "REQUEST_CHANGES"

abbrev pub review_human_required : String
review_human_required = "HUMAN_REVIEW_REQUIRED"

abbrev pub planner_skip_decision : String
planner_skip_decision = "SKIP_SUGGESTED"
