-- ===== src/Schema/Scope.antt =====
-- The tables that a plan manages: `managed_scope` of src/schema/introspect.rs, `plan_scope` of
-- src/schema/apply.rs, and `Plan::build` of src/schema/plan.rs on a live database.
use seekwel.Prelude.{Option, none, some, List, [], ◌∷◌, map, Text}
use seekwel.Prelude.Maps.{TreeMap, insert_entry}
use seekwel.Connection.Act.{Sqlite, Act, ◌>>=◌, lift, pure}
use seekwel.Connection.Access.{with_read}
use seekwel.Schema.Types.{SchemaDef, table_names}
use seekwel.Schema.Plan.{Plan, PlanOp, PlanBlocker}
use seekwel.Schema.Build.{build}
use seekwel.Schema.History.{load_latest_target_schema}
use seekwel.Schema.Introspect.Tables.{introspect_managed}

-- `BTreeSet::extend`
insert_names : List Text → TreeMap (Unit {0}) → TreeMap (Unit {0})
insert_names [] set = set
insert_names (name ∷ names) set = insert_names names (insert_entry name tt set)

-- The names of both lists, each once and in order.
unfoldable pub name_set : List Text → List Text → List Text
unfolding insert_names
name_set first second =
    map (λ (e : Text × Unit {0}). e.0) (insert_names second (insert_names first []))

previous_names : Option SchemaDef → List Text
previous_names none = []
previous_names (some schema) = table_names schema

unfoldable pub plan_scope : Plan → List Text
plan_scope plan = name_set (table_names plan.source) (table_names plan.target)

module _ {S R Row D : Type 0} (sqlite : Sqlite S R Row D) where
  unfoldable pub managed_scope : SchemaDef → Act S D (List Text)
  unfolding previous_names
  managed_scope target = load_latest_target_schema sqlite >>= λ previous.
      pure (name_set (table_names target) (previous_names previous))

  unfoldable pub build_plan : (PlanOp → Text) → (PlanBlocker → Text) → SchemaDef → Act S D Plan
  build_plan debug_op debug_blocker target = with_read (do
    scope ← managed_scope target
    actual ← introspect_managed sqlite scope
    lift (build debug_op debug_blocker target actual))
