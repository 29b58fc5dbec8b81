-- ===== src/Tests/Apply.antt =====
-- Applying a plan to a small database.
use seekwel.Prelude.{
  ℕ, ◌≡◌, refl, Bool, true, false, ◌||◌, ◌⊎◌, inl, inr, Option, none, some, List, [], ◌∷◌, ◌++◌,
  Text, codes, ◌==◌, if◌then◌else◌, arith,
}
use seekwel.Prelude.Integers.{pos}
use seekwel.Errors.{ok}
use seekwel.Connection.Transaction.{World}
use seekwel.Connection.Act.{Sqlite}
use seekwel.Schema.Plan.{Plan, create_table, safe_only}
use seekwel.Schema.Build.{plan_of}
use seekwel.Prelude.Maps.{TreeMap}
use seekwel.Schema.Diff.{ActualTable}
use seekwel.Schema.Apply.{
  create_statements, render_create_table_sql, render_create_index_sql, quote_ident,
}
use seekwel.Schema.Apply.Run.{op_statements, apply}
use seekwel.Schema.Apply.Run.Guards.{Passed, apply_guards}
use seekwel.Schema.Apply.Run.Rollback.{Transactions}
use seekwel.Schema.Apply.Run.Atomic.{OpInside, Housekeeping, Atomic, apply-Atomic}
use seekwel.Tests.Data.{person, people}

-- The statements that ran, and those to go back to.
record Store : Type 0 where
  ran : List Text
  before : Option (List Text)

abbrev is_control : Text → Bool
is_control sql =
    sql == codes "BEGIN IMMEDIATE" || (sql == codes "COMMIT" || sql == codes "ROLLBACK")

abbrev rolled : Option (List Text) → Store → Store
rolled none d = d
rolled (some ran) d = record { ran = ran; before = none }

abbrev run : Text → Store → Store
run sql d =
    if sql == codes "BEGIN IMMEDIATE"
    then record d { before = some d.ran }
    else if sql == codes "COMMIT"
    then record d { before = none }
    else if sql == codes "ROLLBACK"
    then rolled d.before d
    else if sql == codes "PRAGMA optimize"
    then d
    else record d { ran = d.ran ++ sql ∷ [] }

abbrev store : Sqlite ℕ ℕ Text Store
store = record {
  execute_batch = λ sql d. (ok tt, run sql d);
  execute = λ sql params d. (ok 1, run sql d);
  query = λ sql params d.
      ok (if sql == codes "PRAGMA integrity_check" then ok (codes "ok") ∷ [] else []);
  text_at = λ n row. ok row;
  optional_text_at = λ n row. ok (some row);
  integer_at = λ n row. ok (pos 0);
  no_rows = 0;
  show_real = λ x. [];
}

inside_lem :
    (sql : Text) (d : Store) (c : List Text)
    → is_control sql ≡ false
    → d.before ≡ some c
    → (run sql d).before ≡ some c
inside_lem sql d c h k = ground arith

transactions : Transactions store (List Text)
unfolding ◌==◌
transactions = record {
  saved = λ d. d.before;
  content = λ d. d.ran;
  Inside = λ sql. is_control sql ≡ false;
  begin = λ d h. (refl, inr refl);
  commit = λ d c h. inl (refl, refl);
  rollback = λ d c h. rw (h, rolled) refl;
  inside_batch = λ sql d c h k. inside_lem sql d c h k;
  inside_execute = λ sql params d c h k. inside_lem sql d c h k;
}

housekeeping : Housekeeping store transactions
unfolding transactions ◌==◌
housekeeping = record { ensure = refl; insert = refl; optimize = λ d. refl }

abbrev plan : Plan
plan =
    plan_of (λ op. []) (λ b. []) people
      (record { source = record { tables = [] }; ops = create_table person ∷ []; blockers = [] })

abbrev world : World Store
world = record {
  initialized = true;
  state = none;
  log = [];
  db = record { ran = []; before = none };
}

person_inside :
    (actual : TreeMap ActualTable) → OpInside store transactions actual (create_table person)
unfolding OpInside op_statements transactions ◌==◌ create_statements render_create_table_sql
    render_create_index_sql quote_ident
person_inside actual = (refl, (refl, tt))

apply_guards_example :
    ((apply store plan safe_only world).1.db ≡ world.db) ⊎ Passed store plan safe_only world
apply_guards_example = apply_guards store plan safe_only world

apply-Atomic_example :
    Atomic store transactions housekeeping plan safe_only world (apply store plan safe_only world)
unfolding plan_of transactions
apply-Atomic_example =
    apply-Atomic store transactions housekeeping plan safe_only world
      (λ actual h. (person_inside actual, tt)) refl
