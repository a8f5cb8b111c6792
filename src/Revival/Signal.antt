-- ===== src/Revival/Signal.antt =====
-- The signals of workflow/revival_workflow.go.
use text.Mathlib.Text.{◌==◌ as str_eq}
use revival_integration.Base.{Bool, ◌||◌, List, String, ℤ, if◌then◌else◌}
use revival_integration.Stdlib.Duration.{Time}

pub record DataEntryCompleteSignal : Type 0 where
  pub entered_by : String
  -- The date and the clock time as the signal writes them, in the zone that it names
  pub entered_at : Time
  pub revival_type : String
  pub number_of_installments : ℤ
  pub revival_amount : ℤ
  pub installment_amount : ℤ
  pub missing_documents : String
  pub documents : String
  pub interest : ℤ
  pub sgst : ℤ
  pub cgst : ℤ
  pub return_to_indexer : Bool
  pub return_reason : String
  pub medical_examiner_code : String
  pub medical_examiner_name : String

pub record QualityCheckCompleteSignal : Type 0 where
  pub qc_passed : Bool
  pub qc_comments : String
  pub performed_by : String
  pub performed_at : Time
  pub missing_documents : String
  pub return_to_indexer : Bool
  pub return_reason : String

pub record ApprovalDecisionSignal : Type 0 where
  pub is_approved : Bool
  pub comments : String
  pub approved_by : String
  pub approved_at : Time
  pub return_to_indexer : Bool
  pub return_reason : String
  pub missing_documents_list : List String
  pub redirect_to_stage : String
  pub redirect_comments : String

pub record FirstCollectionCompleteSignal : Type 0 where
  pub collection_date : Time
  pub payment_mode : String
  pub total_amount : ℤ

pub record InstallmentPaymentSignal : Type 0 where
  pub payment_date : Time
  pub amount : ℤ
  pub payment_mode : String

-- A text marked `omitempty` is not in the message if it is empty.
abbrev text_over : String → String → String
text_over old new = if str_eq new "" then old else new

-- `dataEntryChannel.Receive(ctx, &dataEntrySignal)`: the JSON text of a signal, decoded into the
-- variable that still holds the one before. What the text leaves out keeps its old value.
unfoldable pub decode_into :
    DataEntryCompleteSignal → DataEntryCompleteSignal → DataEntryCompleteSignal
decode_into old new = record new {
  missing_documents = text_over old.missing_documents new.missing_documents;
  documents = text_over old.documents new.documents;
  return_to_indexer = old.return_to_indexer || new.return_to_indexer;
  return_reason = text_over old.return_reason new.return_reason;
  medical_examiner_code = text_over old.medical_examiner_code new.medical_examiner_code;
  medical_examiner_name = text_over old.medical_examiner_name new.medical_examiner_name;
}
