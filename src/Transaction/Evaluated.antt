-- ===== src/Transaction/Evaluated.antt =====
-- Where the results of the gates of a transaction come from.
use mesa_e2e_certification.Prelude.{
  String, ◌==◌, ◌≡◌, inl, inr, refl, sym, ap, ◌∙◌, subst, Bool, true, Option, none, some, List, [],
  ◌∷◌, arith, if◌then◌else◌, Member, Dict, lookup, Bool-cases, Option-cases,
}
use mesa_e2e_certification.Models.{GateStatus, ExecutionStatus}
use mesa_e2e_certification.Values.{Floats}
use mesa_e2e_certification.Gates.{GateDefinition, GateResult, evaluate_threshold_gate}
use mesa_e2e_certification.Transaction.{Produced}
use mesa_e2e_certification.Transaction.Gating.{blocked_gate, gate_result, evaluate_all}

module _ (floats : Floats) (starts_with : String → String → Bool)
    (gates : Dict (GateDefinition floats)) (produced : Dict (Produced floats)) where
  -- A gate that passes: its definition and what its producer derived, which completed, and the
  -- evaluation of the one on the other.
  pub record IsProduced (gate_ids : List String) (g : GateResult floats) : Type 0 where
    pub gate_id : String
    pub listed : Member gate_id gate_ids
    pub definition : GateDefinition floats
    pub defined : lookup gate_id gates ≡ some definition
    pub output : Produced floats
    pub derived : lookup gate_id produced ≡ some output
    pub finished : (output.execution == "COMPLETED") ≡ true
    pub evaluated :
        g
        ≡ evaluate_threshold_gate floats definition output.observed ExecutionStatus.completed
            output.evidence

  later :
      (gate_id : String) (gate_ids : List String) (g : GateResult floats)
      → IsProduced gate_ids g
      → IsProduced (gate_id ∷ gate_ids) g
  later gate_id gate_ids g p = record {
    gate_id = p.gate_id;
    listed = inr p.listed;
    definition = p.definition;
    defined = p.defined;
    output = p.output;
    derived = p.derived;
    finished = p.finished;
    evaluated = p.evaluated;
  }

  -- A result that passes is the evaluation of a producer that completed.
  gate_result_pass :
      (gate_id : String) (d : GateDefinition floats) (p : Produced floats)
      → (gate_result floats starts_with gate_id d p).status ≡ GateStatus.pass
      → ((p.execution == "COMPLETED") ≡ true)
        × (gate_result floats starts_with gate_id d p
            ≡ evaluate_threshold_gate floats d p.observed ExecutionStatus.completed p.evidence)
  unfolding gate_result blocked_gate
  gate_result_pass gate_id d p h = elim (Bool-cases (p.execution == "COMPLETED")) [
    | inl e ↦ (e, rw (e, gate_result) refl)
    | inr e ↦ absurd (blocked _ (rw (e, gate_result) at h))
  ]
    where
      blocked :
          (b : Bool)
          → (if b then GateStatus.blocked else GateStatus.unverified) ≡ GateStatus.pass
          → ⊥
      blocked b h = ground arith

  abbrev consed :
      GateResult floats → Option (List (GateResult floats)) → Option (List (GateResult floats))
  consed g none = none
  consed g (some results) = some (g ∷ results)

  evaluate_all-cons :
      (gate_id : String) (gate_ids : List String) (results : List (GateResult floats))
      → evaluate_all floats starts_with gates produced (gate_id ∷ gate_ids) ≡ some results
      → (d : GateDefinition floats) × (p : Produced floats) × (rest : List (GateResult floats))
        × (lookup gate_id gates ≡ some d)
        × (lookup gate_id produced ≡ some p)
        × (evaluate_all floats starts_with gates produced gate_ids ≡ some rest)
        × (results ≡ gate_result floats starts_with gate_id d p ∷ rest)
  unfolding evaluate_all
  evaluate_all-cons gate_id gate_ids results h = elim (Option-cases (lookup gate_id gates)) [
    | inl e ↦ absurd (ground arith)
    | inr (d, ed) ↦ elim (Option-cases (lookup gate_id produced)) [
      | inl e ↦ absurd (ground arith)
      | inr (p, ep) ↦
          elim (Option-cases (evaluate_all floats starts_with gates produced gate_ids)) [
            | inl e ↦ absurd (ground arith)
            | inr (rest, er) ↦ (d, p, rest, ed, ep, er, ground arith)
          ]
    ]
  ]

  -- Each result of the loop over the mandatory gates that passes is the evaluation of the gate's
  -- definition on what its producer has derived, and that producer completed.
  pub evaluate_all-IsProduced :
      (gate_ids : List String) (results : List (GateResult floats)) (g : GateResult floats)
      → evaluate_all floats starts_with gates produced gate_ids ≡ some results
      → Member g results
      → g.status ≡ GateStatus.pass
      → IsProduced gate_ids g
  unfolding evaluate_all
  evaluate_all-IsProduced [] results g h m passes =
      absurd (subst (λ l. Member g l) (none_left results h) m tt)
    where
      none_left : (l : List (GateResult floats)) → some [] ≡ some l → l ≡ []
      none_left l e = ground arith
  evaluate_all-IsProduced (gate_id ∷ gate_ids) results g h m passes =
      let (d, p, rest, ed, ep, er, same) = evaluate_all-cons gate_id gate_ids results h in
      elim (subst (λ l. Member g l) same m) [
        | inr below ↦
            later gate_id gate_ids g (evaluate_all-IsProduced gate_ids rest g er below passes)
        | inl first ↦
            let (finished, evaluated) =
              gate_result_pass gate_id d p (ap (λ x. x.status) first ∙ passes) in
            record {
              gate_id = gate_id;
              listed = inl refl;
              definition = d;
              defined = ed;
              output = p;
              derived = ep;
              finished = finished;
              evaluated = sym first ∙ evaluated;
            }
      ]
