-- ===== src/Domain/Publication.antt =====
-- The receipts and the ledger entry of domain.py, and the usage of a language model.
use changesafe.Prelude.{ℕ, Bool, Option, List, String}

pub data PublicationMode : Type 0 where
  live preview : PublicationMode

pub record DataHubReceipt : Type 0 where
  pub mode : PublicationMode
  pub label : String
  pub document_urn : Option String
  pub updated_urns : List String
  pub mutations : List String
  pub idempotent_reuse : Bool

pub record PublicationReceipt : Type 0 where
  pub mode : PublicationMode
  pub idempotency_key : String
  pub artifact_hash : String
  pub branch : Option String
  pub pull_request_url : Option String
  pub patch : Option String
  pub writeback : DataHubReceipt

pub record PublicationLedgerEntry : Type 0 where
  pub idempotency_key : String
  pub run_id : String
  pub artifact_hash : String
  pub approved_at : ℕ
  pub publication_mode : Option PublicationMode
  pub github_required : Bool
  pub datahub_required : Bool
  pub github_repository : Option String
  pub github_base_branch : Option String
  pub datahub_server : Option String
  pub datahub_target_urn : Option String
  pub branch : Option String
  pub pull_request_url : Option String
  pub writeback : Option DataHubReceipt
  pub receipt : Option PublicationReceipt
  pub completed : Bool
  pub created_at : ℕ
  pub updated_at : ℕ

-- A non-negative `Decimal`: `coefficient / 10 ^ places`.
pub record Decimal : Type 0 where
  pub coefficient : ℕ
  pub places : ℕ

pub record LlmUsage : Type 0 where
  pub model : String
  pub request_count : ℕ
  pub input_tokens : ℕ
  pub output_tokens : ℕ
  pub total_tokens : ℕ
  pub estimated_cost_usd : Decimal
