-- ===== src/Governance.antt =====
-- harness/gt_governance.py: the structural audit of the ground truth and its relevance judgements.
pub mod Structure
pub mod Accepted
use Prim.Native.String.{compare}
use text.Mathlib.Text.{is_le}
use mesa_e2e_certification.Prelude.{
  ℕ, String, ◌==◌, Bool, true, false, not, ◌&&◌, ◌||◌, Option, none, some, List, [], ◌∷◌, ◌++◌, map,
  if◌then◌else◌, leb, ltb, eqb, length, is_empty, any, filter, elem, subset, same_set, intersection,
  difference, to_set, sorted, Dict, lookup, insert, insert_all, keys, has_key, collect, when,
}
use mesa_e2e_certification.GroundTruth.{
  ExactSourceSpan, RequiredFact, EvidenceGroup, AnswerPattern, GroundTruthItem,
}
use mesa_e2e_certification.Identity.{IdentityMap, ok, err, resolve_source_chunk_id}

pub record QrelRow : Type 0 where
  pub query_id : String
  pub query_class : String
  pub is_answerable : Bool
  pub expected_source_chunk_ids : List String
  pub evidence_groups : List (List String)

-- The errors of a report: the text's fixed part is the constructor, the IDs in it stay.
pub data GroundTruthError : Type 0 where
  duplicate_query_id relational_not_answerable : (query : String) → GroundTruthError
  relational_needs_two_groups inconsistent_no_answer : (query : String) → GroundTruthError
  no_answer_with_evidence no_expected_evidence : (query : String) → GroundTruthError
  no_required_facts duplicate_qrel set_mismatch content_mismatch :
      (query : String) → GroundTruthError
  empty_group empty_support empty_text undeclared : (query name : String) → GroundTruthError
  unknown_source : (query source : String) → GroundTruthError
  malformed_ground_truth malformed_qrels : GroundTruthError

-- `status` is whether the report says PASS; a warning is the query that it is about.
pub record Report : Type 0 where
  pub status : Bool
  pub query_count : ℕ
  pub errors : List GroundTruthError
  pub warnings : List String

abbrev pub group_sources : GroundTruthItem → List String
group_sources item = collect (λ g. g.acceptable_source_chunk_ids) item.evidence_groups

-- the set `declared`
abbrev pub declared : GroundTruthItem → List String
declared item = item.expected_source_chunk_ids ++ group_sources item

-- the set `source_ids`, once the loops have filled it
abbrev pub source_ids : GroundTruthItem → List String
source_ids item =
    declared item ++ collect (λ f. map (λ s. s.source_chunk_id) f.supported_by) item.required_facts

abbrev pub is_no_answer_class : GroundTruthItem → Bool
is_no_answer_class item = item.query_class == "NO_ANSWER"

abbrev pub is_no_answer : GroundTruthItem → Bool
is_no_answer item = is_no_answer_class item || not item.is_answerable

abbrev pub is_known : IdentityMap → String → Bool
is_known m s = elim (resolve_source_chunk_id m s) [ ok t ↦ true | err e ↦ false ]

unfoldable pub group_errors : GroundTruthItem → EvidenceGroup → List GroundTruthError
group_errors item g =
    when (is_empty g.acceptable_source_chunk_ids)
      (GroundTruthError.empty_group item.query_id g.group_id)

unfoldable pub relational_errors : GroundTruthItem → List GroundTruthError
relational_errors item =
    if item.query_class == "RELATIONAL"
    then when (not item.is_answerable) (GroundTruthError.relational_not_answerable item.query_id)
      ++ when (ltb (length item.evidence_groups) 2)
          (GroundTruthError.relational_needs_two_groups item.query_id)
    else []

unfoldable pub answer_errors : GroundTruthItem → List GroundTruthError
answer_errors item =
    if is_no_answer item
    then when (not (is_no_answer_class item) || item.is_answerable)
        (GroundTruthError.inconsistent_no_answer item.query_id)
      ++ when
          (not (is_empty item.expected_source_chunk_ids)
            || not (is_empty item.evidence_groups)
            || not (is_empty item.required_facts))
          (GroundTruthError.no_answer_with_evidence item.query_id)
    else when (is_empty item.expected_source_chunk_ids)
        (GroundTruthError.no_expected_evidence item.query_id)
      ++ when (is_empty item.required_facts) (GroundTruthError.no_required_facts item.query_id)

unfoldable pub source_errors : IdentityMap → GroundTruthItem → List GroundTruthError
source_errors m item =
    map (λ s. GroundTruthError.unknown_source item.query_id s)
      (filter (λ s. not (is_known m s)) (sorted (to_set (source_ids item))))

-- the queries with a warning
unfoldable pub warnings : List GroundTruthItem → List String
warnings items =
    map (λ i. i.query_id)
      (filter
        (λ i.
          not (is_empty i.required_facts)
          && any (λ p. is_empty p.fact_ids) i.acceptable_answer_patterns)
        items)

module _ (is_blank : String → Bool) where
  unfoldable pub span_errors :
      GroundTruthItem → RequiredFact → ExactSourceSpan → List GroundTruthError
  span_errors item f s =
      when (is_blank s.exact_text) (GroundTruthError.empty_text item.query_id f.fact_id)
      ++ when (not (elem s.source_chunk_id (declared item)))
          (GroundTruthError.undeclared item.query_id f.fact_id)

  unfoldable pub fact_errors : GroundTruthItem → RequiredFact → List GroundTruthError
  unfolding span_errors
  fact_errors item f =
      when (is_empty f.supported_by) (GroundTruthError.empty_support item.query_id f.fact_id)
      ++ collect (span_errors item f) f.supported_by

  -- one turn of the loop over the items
  unfoldable pub item_errors : IdentityMap → List String → GroundTruthItem → List GroundTruthError
  unfolding group_errors fact_errors source_errors relational_errors answer_errors
  item_errors m seen item =
      when (elem item.query_id seen) (GroundTruthError.duplicate_query_id item.query_id)
      ++ collect (group_errors item) item.evidence_groups
      ++ collect (fact_errors item) item.required_facts
      ++ source_errors m item
      ++ relational_errors item
      ++ answer_errors item

  -- the errors of `_structural_errors`
  unfoldable pub structural_errors :
      IdentityMap → List String → List GroundTruthItem → List GroundTruthError
  unfolding item_errors
  structural_errors m seen [] = []
  structural_errors m seen (item ∷ items) =
      item_errors m seen item ++ structural_errors m (item.query_id ∷ seen) items

  -- `none` is the raised GroundTruthValidationError.
  unfoldable pub validate_ground_truth_items : List GroundTruthItem → IdentityMap → Option Report
  unfolding structural_errors
  validate_ground_truth_items items m =
      if not (is_empty (structural_errors m [] items))
      then none
      else some (record {
        status = true;
        query_count = length items;
        errors = [];
        warnings = warnings items;
      })

-- `<=` of lists of texts
abbrev le_list : List String → List String → Bool
le_list [] ys = true
le_list (x ∷ xs) [] = false
le_list (x ∷ xs) (y ∷ ys) = let rest = le_list xs ys in if x == y then rest else is_le (compare x y)

abbrev same_list : List String → List String → Bool
same_list [] [] = true
same_list (x ∷ xs) (y ∷ ys) = x == y && same_list xs ys
same_list _ _ = false

abbrev same_lists : List (List String) → List (List String) → Bool
same_lists [] [] = true
same_lists (x ∷ xs) (y ∷ ys) = same_list x y && same_lists xs ys
same_lists _ _ = false

abbrev insert_group : List String → List (List String) → List (List String)
insert_group g [] = g ∷ []
insert_group g (h ∷ hs) =
    let rest = insert_group g hs in if le_list g h then g ∷ h ∷ hs else h ∷ rest

-- `_normalized_groups`
unfoldable pub normalized_groups : List (List String) → List (List String)
normalized_groups [] = []
normalized_groups (g ∷ gs) = insert_group (sorted g) (normalized_groups gs)

unfoldable pub same_content : QrelRow → GroundTruthItem → Bool
unfolding normalized_groups
same_content q item =
    q.query_class == item.query_class
    && (if q.is_answerable then item.is_answerable else not item.is_answerable)
    && same_set q.expected_source_chunk_ids item.expected_source_chunk_ids
    && same_lists (normalized_groups q.evidence_groups)
        (normalized_groups (map (λ g. g.acceptable_source_chunk_ids) item.evidence_groups))

-- the errors of the loop over the rows; `seen` are the keys of `qrel_by_id`
unfoldable pub duplicate_qrels : List String → List QrelRow → List GroundTruthError
duplicate_qrels seen [] = []
duplicate_qrels seen (q ∷ qs) =
    when (elem q.query_id seen) (GroundTruthError.duplicate_qrel q.query_id)
    ++ duplicate_qrels (q.query_id ∷ seen) qs

unfoldable pub compare_query :
    Option GroundTruthItem → Option QrelRow → String → List GroundTruthError
compare_query (some item) (some q) query =
    when (not (same_content q item)) (GroundTruthError.content_mismatch query)
compare_query _ _ query = GroundTruthError.set_mismatch query ∷ []

unfoldable pub qrel_errors : List GroundTruthItem → List QrelRow → List GroundTruthError
unfolding duplicate_qrels compare_query
qrel_errors items qrels =
    let gt_by_id = insert_all [] (map (λ i. (i.query_id, i)) items) in
    let qrel_by_id = insert_all [] (map (λ q. (q.query_id, q)) qrels) in
    duplicate_qrels [] qrels
    ++ collect (λ query. compare_query (lookup query gt_by_id) (lookup query qrel_by_id) query)
        (sorted (to_set (keys gt_by_id ++ keys qrel_by_id)))

abbrev or_no_rows : Option (List QrelRow) → List QrelRow
or_no_rows none = []
or_no_rows (some qs) = qs

abbrev is_none {ℓ} : {A : Type ℓ} → Option A → Bool
is_none none = true
is_none (some a) = false

-- The two files are arguments, with `none` where a line of one is malformed; an OSError is not
-- caught, and leaves no report.
unfoldable pub validate_ground_truth :
    (String → Bool) → Option (List GroundTruthItem) → Option (List QrelRow) → IdentityMap → Report
unfolding structural_errors qrel_errors warnings
validate_ground_truth is_blank none qrels m = record {
  status = false;
  query_count = 0;
  errors = GroundTruthError.malformed_ground_truth ∷ [];
  warnings = [];
}
validate_ground_truth is_blank (some items) qrels m =
    let errors =
      structural_errors is_blank m [] items
      ++ when (is_none qrels) GroundTruthError.malformed_qrels
      ++ qrel_errors items (or_no_rows qrels) in
    record {
      status = is_empty errors;
      query_count = length items;
      errors = errors;
      warnings = warnings items;
    }

abbrev pub query_ids : List GroundTruthItem → List String
query_ids items = map (λ i. i.query_id) items
