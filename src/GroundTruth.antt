-- ===== src/GroundTruth.antt =====
-- harness/models.py: the ground truth of one query, and what a scorer says of it.
use mesa_e2e_certification.Prelude.{ℕ, String, Bool, Option, List}
use mesa_e2e_certification.Models.{ScoringStatus}

pub data PatternMode : Type 0 where
  literal regex all_of any_of : PatternMode

pub record ExactSourceSpan : Type 0 where
  pub source_chunk_id : String
  pub span_id : Option String
  pub exact_text : String

pub record RequiredFact : Type 0 where
  pub fact_id : String
  pub claim : String
  pub supported_by : List ExactSourceSpan

pub record EvidenceGroup : Type 0 where
  pub group_id : String
  pub acceptable_source_chunk_ids : List String

pub record AnswerPattern : Type 0 where
  pub mode : PatternMode
  pub value : Option String
  pub values : List String
  pub fact_ids : List String

pub record GroundTruthItem : Type 0 where
  pub query_id : String
  pub query_class : String
  pub question : String
  pub expected_source_chunk_ids : List String
  pub evidence_groups : List EvidenceGroup
  pub required_facts : List RequiredFact
  pub acceptable_answer_patterns : List AnswerPattern
  pub forbidden_claims : List String
  pub is_answerable : Bool

-- A quotient that the program computes as a float: the numerator and the denominator.
pub record Ratio : Type 0 where
  pub num : ℕ
  pub den : ℕ

abbrev pub zero_ratio : Ratio
zero_ratio = record { num = 0; den = 1 }

abbrev pub one_ratio : Ratio
one_ratio = record { num = 1; den = 1 }

pub record RetrievalScore (Reason : Type 0) : Type 0 where
  pub query_id : String
  pub query_class : String
  pub is_answerable : Bool
  pub status : ScoringStatus
  pub rank : Option ℕ
  pub recall_at_1 : Ratio
  pub recall_at_5 : Ratio
  pub mrr : Ratio
  pub group_coverage_at_5 : Ratio
  pub complete_evidence_at_5 : Ratio
  pub normalized_retrieved_chunk_ids : List String
  pub matching_chunk_ids : List String
  pub reasons : List Reason
