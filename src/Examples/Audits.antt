-- ===== src/Examples/Audits.antt =====
-- A ground truth of two items, its splits and its audit.
use mesa_e2e_certification.Prelude.{
  insert, lookup, to_set, sorted, ◌==◌, ◌≡◌, refl, true, false, none, List, [], ◌∷◌, All, Nodup,
  subset,
}
use mesa_e2e_certification.GroundTruth.{GroundTruthItem}
use mesa_e2e_certification.Identity.{
  resolve_source_chunk_id, IdentityMap, empty_map, enter_row, plain_row,
}
use mesa_e2e_certification.Governance.{query_ids, validate_ground_truth_items}
use mesa_e2e_certification.Reviews.{
  questions, validate_dev_test_leakage, Decision, DomainAuditRecord, build_domain_audit_artifact,
}
use mesa_e2e_certification.Governance.Structure.{IsSound}
use mesa_e2e_certification.Governance.Accepted.{accepted_iff}
use mesa_e2e_certification.Reviews.Splits.{IsApart, leakage_iff}
use mesa_e2e_certification.Reviews.Audits.{domain_audit_iff}

abbrev answerable_item : GroundTruthItem
answerable_item = record {
  query_id = "q-1";
  query_class = "SINGLE_HOP";
  question = "Which article applies?";
  expected_source_chunk_ids = "source-1" ∷ [];
  evidence_groups = [];
  required_facts =
      record {
        fact_id = "f-1";
        claim = "Article 5 applies.";
        supported_by =
            record { source_chunk_id = "source-1"; span_id = none; exact_text = "Article 5" } ∷ [];
      }
      ∷ [];
  acceptable_answer_patterns = [];
  forbidden_claims = [];
  is_answerable = true;
}

abbrev unanswerable_item : GroundTruthItem
unanswerable_item = record {
  query_id = "q-2";
  query_class = "NO_ANSWER";
  question = "What is not said?";
  expected_source_chunk_ids = [];
  evidence_groups = [];
  required_facts = [];
  acceptable_answer_patterns = [];
  forbidden_claims = [];
  is_answerable = false;
}

abbrev items : List GroundTruthItem
items = answerable_item ∷ unanswerable_item ∷ []

abbrev identity_map : IdentityMap
identity_map = enter_row empty_map (plain_row "mesa-1" "source-1")

accepted_iff_example : Nodup (query_ids items) × All (IsSound (λ t. t == "") identity_map) items
unfolding validate_ground_truth_items sorted to_set resolve_source_chunk_id lookup enter_row insert
accepted_iff_example = (accepted_iff (λ t. t == "") identity_map items).0 refl

leakage_iff_example :
    IsApart ("q-1" ∷ []) ("q-2" ∷ [])
    × IsApart
        (questions (λ q. q) (answerable_item ∷ []))
        (questions (λ q. q) (unanswerable_item ∷ []))
    × IsApart ("source-1" ∷ []) []
unfolding validate_dev_test_leakage sorted to_set
leakage_iff_example = (leakage_iff (λ q. q) (answerable_item ∷ []) (unanswerable_item ∷ [])).0 refl

abbrev reviews : List DomainAuditRecord
reviews =
    record { query_id = "q-2"; decision = Decision.approve }
    ∷ record { query_id = "q-1"; decision = Decision.approve }
    ∷ []

domain_audit_iff_example :
    Nodup ("q-2" ∷ "q-1" ∷ [])
    × (subset ("q-1" ∷ "q-2" ∷ []) ("q-2" ∷ "q-1" ∷ []) ≡ true)
    × (subset ("q-2" ∷ "q-1" ∷ []) ("q-1" ∷ "q-2" ∷ []) ≡ true)
    × All (λ r. r.decision ≡ Decision.approve) reviews
unfolding build_domain_audit_artifact sorted to_set
domain_audit_iff_example = (domain_audit_iff ("q-1" ∷ "q-2" ∷ []) reviews).0 refl
