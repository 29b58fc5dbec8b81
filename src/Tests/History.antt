-- ===== src/Tests/History.antt =====
-- The history of a small database, and what is read from its catalogue.
use seekwel.Prelude.{
  ℕ, ◌≡◌, refl, true, Option, none, some, List, [], ◌∷◌, Text, codes, ◌==◌, is_some, if◌then◌else◌,
}
use seekwel.Prelude.Integers.{ℤ, pos}
use seekwel.Errors.{Result, ok}
use seekwel.Connection.Value.{Value, text}
use seekwel.Connection.Transaction.{World}
use seekwel.Connection.Act.{Sqlite, ◌>>=◌, lift, run_batch, run_execute}
use seekwel.Schema.History.{
  exists_query, ensure_history_table, record_success, load_latest_target_schema,
}
use seekwel.Schema.History.Latest.{HistoryTable, IsStorable, head_of, missing}
use seekwel.Schema.History.Recorded.{Success, record_each, pushed, load_latest-record_each}
use seekwel.Tests.Data.{people, people-IsNormal, people-IsClean}

-- The texts of the applied schemas, the last one first, if the table exists.
abbrev Store : Type 0
Store = Option (List Text)

abbrev listed : Store → List Text
listed none = []
listed (some ts) = ts

abbrev answer : Text → Store → List (Result ℕ (Text × ℤ))
answer sql d =
    if sql == exists_query
    then ok ([], pos (if is_some d then 1 else 0)) ∷ []
    else elim (listed d) [ [] ↦ [] | t ∷ ts ↦ ok (t, pos 0) ∷ [] ]

abbrev push : List (Value ℕ) → Store → Store
push (a ∷ b ∷ c ∷ e ∷ text t ∷ []) d = some (t ∷ listed d)
push _ d = d

abbrev store : Sqlite ℕ ℕ (Text × ℤ) Store
store = record {
  execute_batch = λ sql d. (ok tt, some (listed d));
  execute = λ sql params d. (ok 1, push params d);
  query = λ sql params d. ok (answer sql d);
  text_at = λ n row. ok row.0;
  optional_text_at = λ n row. ok (some row.0);
  integer_at = λ n row. ok row.1;
  no_rows = 0;
  show_real = λ x. [];
}

ensured : (d : Store) → some (listed d) ≡ some (elim d [ none ↦ [] | some ts ↦ ts ])
ensured none = refl
ensured (some ts) = refl

history : HistoryTable store
unfolding ◌==◌
history = record {
  stored = λ d. d;
  exists = λ d. (([], pos (if is_some d then 1 else 0)), refl, refl);
  latest = λ d t rest h. ((t, pos 0), rw h refl, refl);
  latest_of_none = λ d h. rw h refl;
  ensure = λ d h. ensured d;
  insert = λ a b c e t ts d h n k. rw h refl;
}

abbrev world : World Store
world = record { initialized = true; state = none; log = []; db = none }

abbrev success : Success
success = record {
  plan_id = codes "p";
  source_fingerprint = codes "s";
  target_fingerprint = codes "t";
  target = people;
}

people-IsStorable : IsStorable people
people-IsStorable = record { normal = people-IsNormal; clean = people-IsClean }

load_latest-record_each_example :
    let w = (record_each store history (success ∷ []) world).1 in
    (load_latest_target_schema store w).0
    ≡ some (ok (head_of (pushed store history (success ∷ []) [])))
unfolding record_each record_success ensure_history_table run_batch run_execute ◌>>=◌ lift history
load_latest-record_each_example =
    load_latest-record_each store history (success ∷ []) [] world (missing refl refl) tt
      (people-IsStorable, tt) refl
