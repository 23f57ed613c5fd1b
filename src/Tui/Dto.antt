-- ===== src/Tui/Dto.antt =====
-- crates/tui/src/dto.rs: what the API answers. A decimal number of the wire is a text.
use defi_tx_indexer.Prelude.{Bool, Option, List, Text, ℤ}
use defi_tx_indexer.Trace.{Json}

pub record PaginationMeta : Type 0 where
  pub limit : ℤ
  pub offset : ℤ
  pub count : ℤ
  pub total : ℤ

pub record TotalPaginated {ℓ} (A : Type ℓ) : Type ℓ where
  pub items : List A
  pub pagination : PaginationMeta

pub record FailedTransaction : Type 0 where
  pub tx_hash : Text
  pub error_category : Text
  pub revert_reason : Option Text
  pub failing_function : Option Text
  pub gas_used : ℤ
  pub timestamp : Text

pub record TraceLog : Type 0 where
  pub tx_hash : Text
  pub call_depth : ℤ
  pub call_type : Text
  pub from_addr : Text
  pub to_addr : Option Text
  pub value : Text
  pub gas_used : ℤ
  pub input : Option Text
  pub output : Option Text
  pub error : Option Text
  pub trace_id : ℤ

pub record DecodedArg : Type 0 where
  pub ty : Text
  pub value : Json

pub record DecodedFunction : Type 0 where
  pub selector : Text
  pub name : Text
  pub signature : Text
  pub source : Option Text
  pub args : Option (List DecodedArg)

pub record Diagnosis : Type 0 where
  pub message : Text
  pub recommended_action : Option Text
  pub source : Option Text

pub record FailedTxDetail : Type 0 where
  pub failed : FailedTransaction
  pub call_tree : List TraceLog
  pub call_tree_truncated : Bool
  pub root_cause : Option TraceLog
  pub failing_function_decoded : Option DecodedFunction
  pub root_cause_decoded : Option DecodedFunction
  pub diagnosis : Option Diagnosis

pub record FailedTxAnalysis : Type 0 where
  pub error_category : Text
  pub failure_count : ℤ
  pub avg_gas_wasted : Text
  pub pct_of_total : Text
  pub most_recent_failure : Text

pub record UnknownRevertCluster : Type 0 where
  pub template : Text
  pub cluster_kind : Text
  pub occurrences : ℤ
  pub pct_of_unknown : Text
  pub total_gas_wasted : Text
  pub avg_gas_wasted : Text
  pub distinct_senders : ℤ
  pub distinct_selectors : ℤ
  pub sample_revert_reason : Option Text
  pub sample_tx_hash : Option Text
  pub first_seen : Text
  pub last_seen : Text
