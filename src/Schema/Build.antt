-- ===== src/Schema/Build.antt =====
-- `Plan::build` of src/schema/plan.rs from the live tables that it reads, and `compute_plan_id`. The
-- derived `Debug` texts of operations and blockers are parameters.
use seekwel.Prelude.{List, [], ◌∷◌, ◌++◌, Text, codes}
use seekwel.Prelude.Decimal.{decimal}
use seekwel.Prelude.Maps.{TreeMap}
use seekwel.Errors.{Result, ok, ◌>>=◌}
use seekwel.Schema.Types.{SchemaDef, artifact_version}
use seekwel.Schema.Canonical.{canonical_string}
use seekwel.Schema.Fingerprint.{utf8, stable_hash_hex, fingerprint}
use seekwel.Schema.Plan.{Plan, PlanOp, PlanBlocker}
use seekwel.Schema.Diff.{ActualTable, DiffResult, diff}

-- `{prefix}{entry:?}` and a line feed, for each entry.
entry_lines : {A : Type 0} → Text → (A → Text) → List A → Text
entry_lines prefix debug [] = []
entry_lines prefix debug (x ∷ xs) = prefix ++ (debug x ++ 10 ∷ entry_lines prefix debug xs)

module _ (debug_op : PlanOp → Text) (debug_blocker : PlanBlocker → Text) where
  unfoldable pub compute_plan_id : Plan → Text
  unfolding entry_lines
  compute_plan_id plan = stable_hash_hex (
      utf8 (
        codes "artifact_version="
        ++ (decimal plan.artifact_version
            ++ 10
              ∷ (codes "source"
                  ++ 10
                    ∷ (canonical_string plan.source
                        ++ (codes "target"
                            ++ 10
                              ∷ (canonical_string plan.target
                                  ++ (entry_lines (codes "op=") debug_op plan.ops
                                      ++ entry_lines (codes "blocker=") debug_blocker
                                          plan.blockers))))))))

  -- The plan from a difference.
  unfoldable pub plan_of : SchemaDef → DiffResult → Plan
  plan_of target d =
      let plan : Plan = record {
        artifact_version = artifact_version;
        source = d.source;
        target = target;
        source_fingerprint = fingerprint d.source;
        target_fingerprint = fingerprint target;
        ops = d.ops;
        blockers = d.blockers;
        plan_id = [];
      } in
      record plan { plan_id = compute_plan_id plan }

  unfoldable pub build : {S : Type 0} → SchemaDef → TreeMap ActualTable → Result S Plan
  unfolding plan_of
  build target actual = diff target actual >>= λ d. ok (plan_of target d)
