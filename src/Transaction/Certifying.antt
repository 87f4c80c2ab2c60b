-- ===== src/Transaction/Certifying.antt =====
-- What a verdict that certifies stands for, in a transaction.
use mesa_e2e_certification.Prelude.{
  String, ◌≡◌, refl, sym, ap, ◌∙◌, subst, Bool, true, false, Option, some, List, [], ◌∷◌, arith,
  inl, inr, Option-cases, Bool-cases, ◌==◌, eq_iff, ◌≢◌, not, none, Dict, to_set, same_set,
}
use mesa_e2e_certification.Models.{VerdictStatus}
use mesa_e2e_certification.Values.{Floats}
use mesa_e2e_certification.Gates.{GateResult, GateConfig}
use mesa_e2e_certification.Freeze.{FreezeVerification, verify_contract_freeze}
use mesa_e2e_certification.Json.{Json}
use mesa_e2e_certification.Verdict.{FinalVerdict, gate_ids, profile_b_gate_ids}
use mesa_e2e_certification.Verdict.Production.{IsOfficial, production_iff}
use mesa_e2e_certification.Transaction.{TransactionPhase, Problem, Services, run_manifest}
use mesa_e2e_certification.Transaction.Core.{
  ok, err, Handler, advance, returned, raised, ◌>>=◌, Run, Transaction,
}
use mesa_e2e_certification.Transaction.Core.Guarding.{execute_outcome}
use mesa_e2e_certification.Transaction.Core.Bodies.{>>=-returned}
use mesa_e2e_certification.Transaction.Preparing.{files_at, read_json}
use mesa_e2e_certification.Transaction.Closing.{
  VerdictInputs, prepare_verdict, derive_verdict, verify_official_execution, conclude_verdict,
  verdict_derivation_body, execute_verdict_derivation, verify_freeze, sealed_hash,
}

module _ (floats : Floats) (services : Services floats) where
  -- From one world to another, the session has verified the sealed raw manifest, as its file is,
  -- and the two derived artifacts.
  pub record IsAttested (sealed : Option String) (before after : services.World) : Type 0 where
    pub hash : String
    pub sealed_hash : sealed ≡ some hash
    pub some_hash : hash ≢ ""
    pub manifest : Json
    pub read : read_json floats services before "raw-manifest.json" ≡ some manifest
    pub first : services.World
    pub raw : services.verify_raw_manifest manifest hash before ≡ (some tt, first)
    pub second : services.World
    pub scope :
        services.verify_derived_artifact "scope-isolation.json" "scope_isolation" first
        ≡ (some tt, second)
    pub graph :
        services.verify_derived_artifact "graph-ablation.json" "graph_ablation" second
        ≡ (some tt, after)

  -- What a certifying verdict was derived from: an official execution that was verified after the
  -- run manifest was written, and, in the world that this left, the freeze of the transaction and
  -- files with which the run is official.
  pub record IsDerived (t : Transaction floats services) : Type 0 where
    pub official : t.is_official ≡ true
    pub config : GateConfig floats
    pub loaded : services.load_gate_config t.run.world ≡ some config
    pub before : services.World
    pub written :
        services.write "run_manifest.json"
          (run_manifest (not t.failed) t.is_official t.run.lifecycle)
          t.run.world
        ≡ (some tt, before)
    pub after : services.World
    pub attested : IsAttested t.run.raw_manifest_hash before after
    pub freeze : services.FilePath
    pub checksum : services.FilePath
    pub root : services.FilePath
    pub shas : Dict String
    pub freeze_path : t.run.freeze_path ≡ some freeze
    pub checksum_path : t.run.checksum_path ≡ some checksum
    pub repository_root : t.run.repository_root ≡ some root
    pub current_shas : t.run.current_repository_shas ≡ some shas
    pub verification : FreezeVerification
    pub verified :
        verify_contract_freeze (files_at floats services after) freeze checksum root shas
        ≡ some verification
    pub certifies :
        IsOfficial floats services.producers t.run_id t.run.gate_results
          (to_set config.mandatory_gate_ids)
          verification
          (read_json floats services after "run_manifest.json")
          (λ n. services.is_file after (services.run_file n))
          ("contract-freeze.json" ∷ [])
          true

  -- What the inputs of the derivation are, and the world after the run manifest is written.
  record IsPrepared (is_official failed : Bool) (r next : Run floats services)
      (inputs : VerdictInputs floats services) : Type 0 where
    pub config : GateConfig floats
    pub loaded : services.load_gate_config r.world ≡ some config
    pub mandatory : inputs.mandatory_gate_ids ≡ to_set config.mandatory_gate_ids
    pub before : services.World
    pub written :
        services.write "run_manifest.json"
          (run_manifest (not failed) is_official r.lifecycle)
          r.world
        ≡ (some tt, before)
    pub freeze_path : r.freeze_path ≡ some inputs.freeze
    pub checksum_path : r.checksum_path ≡ some inputs.checksum
    pub repository_root : r.repository_root ≡ some inputs.root
    pub current_shas : r.current_repository_shas ≡ some inputs.shas
    pub next_is : next ≡ record r { world = before }

  -- a pair by its first part
  with_first :
      {A : Type 0} (x : Option A × services.World) (a : A) → x.0 ≡ some a → x ≡ (some a, x.1)
  with_first x a e = ap (λ o. (o, x.1)) e

  prepare→ :
      (is_official failed : Bool) (r : Run floats services) (inputs : VerdictInputs floats services)
      → (prepare_verdict floats services is_official failed r r).0 ≡ returned inputs
      → IsPrepared is_official failed r
          (prepare_verdict floats services is_official failed r r).1
          inputs
  unfolding prepare_verdict
  prepare→ is_official failed r inputs h =
      let file =
        services.write "run_manifest.json" (run_manifest (not failed) is_official r.lifecycle)
          r.world in
      elim (Option-cases (services.load_gate_config r.world)) [
        | inl e ↦ absurd (ground arith)
        | inr (config, e1) ↦ elim (Option-cases file.0) [
          | inl e ↦ absurd (stopped (rw (e1, e, prepare_verdict) at h))
          | inr (u, e2) ↦ elim (Option-cases r.freeze_path) [
            | inl e ↦ absurd (stopped (rw (e1, e2, e, prepare_verdict) at h))
            | inr (freeze, e3) ↦ elim (Option-cases r.checksum_path) [
              | inl e ↦ absurd (stopped (rw (e1, e2, e3, e, prepare_verdict) at h))
              | inr (checksum, e4) ↦ elim (Option-cases r.repository_root) [
                | inl e ↦ absurd (stopped (rw (e1, e2, e3, e4, e, prepare_verdict) at h))
                | inr (root, e5) ↦ elim (Option-cases r.current_repository_shas) [
                  | inl e ↦ absurd (stopped (rw (e1, e2, e3, e4, e5, e, prepare_verdict) at h))
                  | inr (shas, e6) ↦
                      let made =
                        same
                          (record {
                            mandatory_gate_ids = to_set config.mandatory_gate_ids;
                            freeze = freeze;
                            checksum = checksum;
                            root = root;
                            shas = shas;
                          })
                          (rw (e1, e2, e3, e4, e5, e6, prepare_verdict) at h) in
                      record {
                        config = config;
                        loaded = e1;
                        mandatory = sym (ap (λ i. i.mandatory_gate_ids) made);
                        before = file.1;
                        written = with_first file tt e2;
                        freeze_path = e3 ∙ ap (λ i. some i.freeze) made;
                        checksum_path = e4 ∙ ap (λ i. some i.checksum) made;
                        repository_root = e5 ∙ ap (λ i. some i.root) made;
                        current_shas = e6 ∙ ap (λ i. some i.shas) made;
                        next_is = rw (e1, e2, e3, e4, e5, e6, prepare_verdict) refl;
                      }
                ]
              ]
            ]
          ]
        ]
      ]
    where
      stopped : {p : Problem} → raised p ≡ returned inputs → ⊥
      stopped e = ground arith

      same : (i : VerdictInputs floats services) → returned i ≡ returned inputs → i ≡ inputs
      same i e = ground arith

  module _ (run_id : String) (gates : List (GateResult floats))
      (inputs : VerdictInputs floats services) (official : Bool) (r : Run floats services)
      (v : FinalVerdict) where
    abbrev answer : Option FreezeVerification
    answer = verify_freeze floats services gates inputs r.world

    -- what `conclude_verdict` returns is the verdict that it derived
    conclude→ :
        (conclude_verdict floats services run_id gates inputs official r).0 ≡ returned v
        → (verification : FreezeVerification) × (answer ≡ some verification)
          × (v ≡ derive_verdict floats services run_id gates inputs official r.world verification)
    unfolding conclude_verdict
    conclude→ h = elim (Option-cases answer) [
      | inl e ↦ absurd (ground arith)
      | inr (verification, e) ↦ (verification, e, ground arith)
    ]

  -- The freeze is verified where both sets of gates are those of the registry.
  exact→ :
      (gates : List (GateResult floats)) (inputs : VerdictInputs floats services)
      (world : services.World)
      → same_set inputs.mandatory_gate_ids profile_b_gate_ids ≡ true
      → same_set (gate_ids floats gates) profile_b_gate_ids ≡ true
      → verify_freeze floats services gates inputs world
        ≡ verify_contract_freeze
            (files_at floats services world)
            inputs.freeze
            inputs.checksum
            inputs.root
            inputs.shas
  unfolding verify_freeze
  exact→ gates inputs world a b = rw (a, b, verify_freeze) refl

  attest→ :
      (o : Option String) (hash : String)
      → sealed_hash o ≡ some hash
      → (o ≡ some hash) × (hash ≢ "")
  attest→ none hash h = absurd (ground arith)
  attest→ (some t) hash h = elim (Bool-cases (t == "")) [
    | inl blank ↦ absurd (ground arith)
    | inr full ↦ (ground arith, λ e. ground (arith, eq_iff t ""))
  ]

  official→ :
      (is_official : Bool) (r : Run floats services)
      → (verify_official_execution floats services is_official r).0 ≡ returned true
      → (is_official ≡ true)
        × IsAttested r.raw_manifest_hash r.world
            (verify_official_execution floats services is_official r).1.world
  unfolding verify_official_execution
  official→ false r h = absurd (ground arith)
  official→ true r h = elim (Option-cases (sealed_hash r.raw_manifest_hash)) [
    | inl e ↦ absurd (stopped (rw (e, verify_official_execution) at h))
    | inr (hash, e1) ↦ elim (Option-cases (read_json floats services r.world "raw-manifest.json")) [
      | inl e ↦ absurd (stopped (rw (e1, e, verify_official_execution) at h))
      | inr (manifest, e2) ↦
          let raw = services.verify_raw_manifest manifest hash r.world in
          elim (Option-cases raw.0) [
            | inl e ↦ absurd (stopped (rw (e1, e2, e, verify_official_execution) at h))
            | inr (u, e3) ↦
                let scope =
                  services.verify_derived_artifact "scope-isolation.json" "scope_isolation" raw.1 in
                elim (Option-cases scope.0) [
                  | inl e ↦ absurd (stopped (rw (e1, e2, e3, e, verify_official_execution) at h))
                  | inr (v, e4) ↦
                      let graph =
                        services.verify_derived_artifact "graph-ablation.json" "graph_ablation"
                          scope.1 in
                      elim (Option-cases graph.0) [
                        | inl e ↦
                            absurd
                              (stopped (rw (e1, e2, e3, e4, e, verify_official_execution) at h))
                        | inr (w, e5) ↦
                            let (sealed, some_hash) = attest→ r.raw_manifest_hash hash e1 in
                            let ends =
                              ends_at r graph.1
                                (rw (e1, e2, e3, e4, e5, verify_official_execution) refl) in
                            (
                              refl,
                              subst (IsAttested r.raw_manifest_hash r.world) ends (record {
                                hash = hash;
                                sealed_hash = sealed;
                                some_hash = some_hash;
                                manifest = manifest;
                                read = e2;
                                first = raw.1;
                                raw = with_first raw tt e3;
                                second = scope.1;
                                scope = with_first scope tt e4;
                                graph = with_first graph tt e5;
                              }),
                            )
                      ]
                ]
          ]
    ]
  ]
    where
      stopped : {p : Problem} → raised p ≡ returned true → ⊥
      stopped e = ground arith

      ends_at :
          (r : Run floats services) (w : services.World)
          → (verify_official_execution floats services true r).1.world ≡ w
          → w ≡ (verify_official_execution floats services true r).1.world
      ends_at r w e = sym e

  verdict_body-IsDerived :
      (t : Transaction floats services) (v : FinalVerdict)
      → (verdict_derivation_body floats services t.run_id t.is_official t.failed t.run).0
        ≡ returned v
      → v.status ≡ VerdictStatus.profile_b_pass_native
      → IsDerived t
  unfolding verdict_derivation_body
  verdict_body-IsDerived t v h passes =
      let r = t.run in
      let gates = t.run.gate_results in
      let (inputs, hi, ei) =
        >>=-returned (prepare_verdict floats services t.is_official t.failed r)
          (λ inputs. verify_official_execution floats services t.is_official >>= λ official.
            conclude_verdict floats services t.run_id gates inputs official)
          r v h in
      let r1 = (prepare_verdict floats services t.is_official t.failed r r).1 in
      let h1 = sym (ap (λ x. x.0) ei) ∙ h in
      let (official, ho, eo) =
        >>=-returned (verify_official_execution floats services t.is_official)
          (λ official. conclude_verdict floats services t.run_id gates inputs official) r1 v h1 in
      let r2 = (verify_official_execution floats services t.is_official r1).1 in
      let (verification, verified, derived) =
        conclude→ t.run_id gates inputs official r2 v (sym (ap (λ x. x.0) eo) ∙ h1) in
      let certified =
        (production_iff floats services.producers t.run_id gates inputs.mandatory_gate_ids
            verification (read_json floats services r2.world "run_manifest.json")
            (λ n. services.is_file r2.world (services.run_file n)) ("contract-freeze.json" ∷ [])
            official).0
          (sym (ap (λ x. x.status) derived) ∙ passes) in
      let p = prepare→ t.is_official t.failed r inputs hi in
      let (is_official, attested) =
        official→ t.is_official r1 (ho ∙ ap returned certified.executed) in
      record {
        official = is_official;
        config = p.config;
        loaded = p.loaded;
        before = p.before;
        written = p.written;
        after = r2.world;
        attested =
            subst (λ (x : Run floats services). IsAttested x.raw_manifest_hash x.world r2.world)
              p.next_is attested;
        freeze = inputs.freeze;
        checksum = inputs.checksum;
        root = inputs.root;
        shas = inputs.shas;
        freeze_path = p.freeze_path;
        checksum_path = p.checksum_path;
        repository_root = p.repository_root;
        current_shas = p.current_shas;
        verification = verification;
        verified =
            sym (exact→ gates inputs r2.world certified.mandatory_exact certified.results_exact)
            ∙ verified;
        certifies =
            subst
              (λ ids.
                IsOfficial floats services.producers t.run_id gates ids verification
                  (read_json floats services r2.world "run_manifest.json")
                  (λ n. services.is_file r2.world (services.run_file n))
                  ("contract-freeze.json" ∷ []) true)
              p.mandatory
              (subst
                (λ b.
                  IsOfficial floats services.producers t.run_id gates inputs.mandatory_gate_ids
                    verification (read_json floats services r2.world "run_manifest.json")
                    (λ n. services.is_file r2.world (services.run_file n))
                    ("contract-freeze.json" ∷ []) b)
                certified.executed certified);
      }

  -- Where the verdict phase of a transaction returns PROFILE_B_PASS_NATIVE, the transaction has an
  -- official session, which then verified the sealed raw manifest and the two derived artifacts; and
  -- the verdict is what `derive_production_verdict` certifies of the gate results of the transaction
  -- and of its gate configuration, of its freeze as it verifies after that, and of the files of the
  -- run.
  pub verdict-IsDerived :
      (t : Transaction floats services) (v : FinalVerdict)
      → (execute_verdict_derivation floats services t).0 ≡ ok v
      → v.status ≡ VerdictStatus.profile_b_pass_native
      → IsDerived t
  unfolding execute_verdict_derivation
  verdict-IsDerived t v h passes =
      elim (execute_outcome floats services TransactionPhase.verdict_derivation
        Handler.fail_and_wrap (advance floats services TransactionPhase.verdict_derivation) t
        (verdict_derivation_body floats services t.run_id t.is_official t.failed)) [
          | inl (e, stopped, same) ↦ absurd (clash e (sym (ap (λ x. x.0) same) ∙ h))
          | inr (next, inl (w, o, result, after)) ↦
              verdict_body-IsDerived t v (o ∙ ap returned (same_value (sym result ∙ h))) passes
          | inr (next, inr (e, result, failed, kept)) ↦ absurd (clash e (sym result ∙ h))
        ]
    where
      clash : (e : Problem) → err e ≡ ok v → ⊥
      clash e p = ground arith

      same_value : {a b : FinalVerdict} → ok a ≡ ok b → a ≡ b
      same_value p = ground arith
