-- ===== src/Reviews.antt =====
-- harness/gt_governance.py: the leakage between splits, and the human audits.
pub mod Splits
pub mod Audits
use mesa_e2e_certification.Prelude.{
  ℕ, String, ◌==◌, Bool, true, false, not, ◌&&◌, ◌||◌, List, [], ◌∷◌, map, if◌then◌else◌, ltb,
  length, is_empty, filter, to_set, intersection, difference, sorted, collect,
}
use mesa_e2e_certification.GroundTruth.{GroundTruthItem}
use mesa_e2e_certification.Governance.{query_ids, is_no_answer}

pub record Overlaps : Type 0 where
  pub query_ids : List String
  pub questions : List String
  pub evidence_ids : List String

abbrev pub questions : (String → String) → List GroundTruthItem → List String
questions normalize items = map (λ i. normalize i.question) items

abbrev pub expected_ids : List GroundTruthItem → List String
expected_ids items = collect (λ i. i.expected_source_chunk_ids) items

-- `sorted(set(xs) & set(ys))`
abbrev pub shared : List String → List String → List String
shared xs ys = sorted (intersection (to_set xs) (to_set ys))

-- `normalize` is `_normalized_question`; the first component is whether the status is PASS.
unfoldable pub validate_dev_test_leakage :
    (String → String) → List GroundTruthItem → List GroundTruthItem → Bool × Overlaps
validate_dev_test_leakage normalize dev test =
    let ids = shared (query_ids dev) (query_ids test) in
    let asked = shared (questions normalize dev) (questions normalize test) in
    let evidence = shared (expected_ids dev) (expected_ids test) in
    (
      not (not (is_empty ids) || not (is_empty asked) || not (is_empty evidence)),
      record { query_ids = ids; questions = asked; evidence_ids = evidence },
    )

pub data Decision : Type 0 where
  approve reject unresolved : Decision

abbrev pub is_reject : Decision → Bool
is_reject Decision.reject = true
is_reject _ = false

abbrev pub is_unresolved : Decision → Bool
is_unresolved Decision.unresolved = true
is_unresolved _ = false

pub data NoAnswerConclusion : Type 0 where
  no_answer_confirmed answerable_reclassify unresolved : NoAnswerConclusion

abbrev pub is_confirmed : NoAnswerConclusion → Bool
is_confirmed NoAnswerConclusion.no_answer_confirmed = true
is_confirmed _ = false

-- The fields of the audit records that the audits read.
pub record DomainAuditRecord : Type 0 where
  pub query_id : String
  pub decision : Decision

pub record NoAnswerAuditRecord : Type 0 where
  pub query_id : String
  pub conclusion : NoAnswerConclusion

-- `xs.count(x)`
abbrev pub count : String → List String → ℕ
count x xs = length (filter (λ y. y == x) xs)

-- the IDs that occur more than once
abbrev pub duplicates : List String → List String
duplicates xs = sorted (filter (λ x. ltb 1 (count x xs)) (to_set xs))

pub data AuditStatus : Type 0 where
  pass fail human_review_required : AuditStatus

pub record Audit : Type 0 where
  pub status : AuditStatus
  pub duplicates : List String
  pub missing : List String
  pub unexpected : List String
  pub rejected : List String
  pub unresolved : List String

-- The first argument is the set `selected_query_ids` of the plan.
unfoldable pub build_domain_audit_artifact : List String → List DomainAuditRecord → Audit
build_domain_audit_artifact selected records =
    let observed = map (λ r. r.query_id) records in
    let twice = duplicates observed in
    let missing = sorted (difference selected observed) in
    let unexpected = sorted (difference (to_set observed) selected) in
    let rejected = sorted (map (λ r. r.query_id) (filter (λ r. is_reject r.decision) records)) in
    let open_ = sorted (map (λ r. r.query_id) (filter (λ r. is_unresolved r.decision) records)) in
    record {
      status =
          if not (is_empty twice) || not (is_empty unexpected) || not (is_empty rejected)
          then AuditStatus.fail
          else if not (is_empty missing) || not (is_empty open_)
          then AuditStatus.human_review_required
          else AuditStatus.pass;
      duplicates = twice;
      missing = missing;
      unexpected = unexpected;
      rejected = rejected;
      unresolved = open_;
    }

unfoldable pub validate_no_answer_audit : List GroundTruthItem → List NoAnswerAuditRecord → Audit
validate_no_answer_audit items records =
    let expected = to_set (query_ids (filter is_no_answer items)) in
    let observed = map (λ r. r.query_id) records in
    let twice = duplicates observed in
    let missing = sorted (difference expected observed) in
    let unexpected = sorted (difference (to_set observed) expected) in
    let open_ =
      sorted (map (λ r. r.query_id) (filter (λ r. not (is_confirmed r.conclusion)) records)) in
    record {
      status =
          if not (
            not (is_empty twice)
            || not (is_empty missing)
            || not (is_empty unexpected)
            || not (is_empty open_))
          then AuditStatus.pass
          else AuditStatus.fail;
      duplicates = twice;
      missing = missing;
      unexpected = unexpected;
      rejected = [];
      unresolved = open_;
    }
