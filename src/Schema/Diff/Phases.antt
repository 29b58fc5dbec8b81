-- ===== src/Schema/Diff/Phases.antt =====
-- The operations of a difference, kind by kind.
use seekwel.Prelude.{
  ℕ, ◌<◌, ◌≤◌, ◌≡◌, refl, sym, ◌∙◌, append-nil, Bool, true, false, List, [], ◌∷◌, ◌++◌, Text, eqb,
  All, if◌then◌else◌, ◌==◌, le, le_refl, eq_iff, arith, Bool-cases, inl, inr,
}
use seekwel.Prelude.Blocks.{only, only_alike, blocks, AtLeast, AtLeast-le, Ascends, blocks_all}
use seekwel.Prelude.Sorting.{IsSorted}
use seekwel.Schema.Plan.{
  PlanOp, create_table, add_column, create_index, drop_index, rebuild_table, drop_table,
}
use seekwel.Schema.Diff.{le_op, le_key, plan_op_sort_key}

abbrev pub is_drop_index : PlanOp → Bool
is_drop_index (drop_index table index) = true
is_drop_index _ = false

abbrev pub is_create_table : PlanOp → Bool
is_create_table (create_table table) = true
is_create_table _ = false

abbrev pub is_add_column : PlanOp → Bool
is_add_column (add_column table column) = true
is_add_column _ = false

abbrev pub is_rebuild_table : PlanOp → Bool
is_rebuild_table (rebuild_table table before after reasons) = true
is_rebuild_table _ = false

abbrev pub is_create_index : PlanOp → Bool
is_create_index (create_index table index) = true
is_create_index _ = false

abbrev pub is_drop_table : PlanOp → Bool
is_drop_table (drop_table table) = true
is_drop_table _ = false

-- The indexes that go, the new tables, the new columns, the tables that are rebuilt, the new indexes,
-- and the tables that go.
abbrev pub phases : List PlanOp → List PlanOp
phases ops =
    only is_drop_index ops
    ++ (only is_create_table ops
        ++ (only is_add_column ops
            ++ (only is_rebuild_table ops ++ (only is_create_index ops ++ only is_drop_table ops))))

abbrev rank : PlanOp → ℕ
rank op = (plan_op_sort_key op).0

rank_tests :
    (op : PlanOp)
    → (eqb (rank op) 0 ≡ is_drop_index op)
      × (eqb (rank op) 1 ≡ is_create_table op)
      × (eqb (rank op) 2 ≡ is_add_column op)
      × (eqb (rank op) 3 ≡ is_rebuild_table op)
      × (eqb (rank op) 4 ≡ is_create_index op)
      × (eqb (rank op) 5 ≡ is_drop_table op)
unfolding plan_op_sort_key
rank_tests (drop_index table index) = (refl, refl, refl, refl, refl, refl)
rank_tests (create_table table) = (refl, refl, refl, refl, refl, refl)
rank_tests (add_column table column) = (refl, refl, refl, refl, refl, refl)
rank_tests (rebuild_table table before after reasons) = (refl, refl, refl, refl, refl, refl)
rank_tests (create_index table index) = (refl, refl, refl, refl, refl, refl)
rank_tests (drop_table table) = (refl, refl, refl, refl, refl, refl)

rank-lt : (op : PlanOp) → rank op < 6
unfolding plan_op_sort_key
rank-lt (drop_index table index) = omega arith
rank-lt (create_table table) = omega arith
rank-lt (add_column table column) = omega arith
rank-lt (rebuild_table table before after reasons) = omega arith
rank-lt (create_index table index) = omega arith
rank-lt (drop_table table) = omega arith

all_below : (ops : List PlanOp) → All (λ op. rank op < 6) ops
all_below [] = tt
all_below (op ∷ ops) = (rank-lt op, all_below ops)

blocks-phases : (ops : List PlanOp) → blocks rank 6 0 ops ≡ phases ops
unfolding blocks
blocks-phases ops = rw (
  only_alike _ is_drop_index (λ op. (rank_tests op).0) ops,
  only_alike _ is_create_table (λ op. (rank_tests op).1) ops,
  only_alike _ is_add_column (λ op. (rank_tests op).2) ops,
  only_alike _ is_rebuild_table (λ op. (rank_tests op).3) ops,
  only_alike _ is_create_index (λ op. (rank_tests op).4) ops,
  only_alike _ is_drop_table (λ op. (rank_tests op).5) ops,
  append-nil (only is_drop_table ops),
)

le_key-rank : (a b : ℕ × Text × Text) → le_key a b ≡ true → a.0 ≤ b.0
le_key-rank (a, s, x) (b, t, y) h = ground (arith, h)

IsSorted-Ascends : (ops : List PlanOp) → IsSorted le_op ops → Ascends rank ops
unfolding Ascends AtLeast
IsSorted-Ascends [] h = tt
IsSorted-Ascends (a ∷ []) h = (tt, tt)
IsSorted-Ascends (a ∷ b ∷ ops) h =
    let k = le_key-rank (plan_op_sort_key a) (plan_op_sort_key b) h.0 in
    let rest = IsSorted-Ascends (b ∷ ops) h.1 in
    ((k, AtLeast-le rank (rank a) (rank b) ops k rest.0), rest)

-- Sorted operations come kind by kind.
pub phases_of_IsSorted : (ops : List PlanOp) → IsSorted le_op ops → phases ops ≡ ops
phases_of_IsSorted ops h =
    sym (blocks-phases ops) ∙ blocks_all rank 6 ops (IsSorted-Ascends ops h) (all_below ops)

-- Of two names each, the first decide, then the second.
abbrev pub le_names : Text → Text → Text → Text → Bool
le_names s x t y = if s == t then le x y else le s t

-- Two operations of one kind are in the order of their tables, then of what they change there.
unfoldable pub names_in_order : PlanOp → PlanOp → Bool
names_in_order (drop_index s i) (drop_index t j) = le_names s i.name t j.name
names_in_order (create_table s) (create_table t) = le s.name t.name
names_in_order (add_column s c) (add_column t d) = le_names s c.name t d.name
names_in_order (rebuild_table s a b c) (rebuild_table t d e f) = le s t
names_in_order (create_index s i) (create_index t j) = le_names s i.name t j.name
names_in_order (drop_table s) (drop_table t) = le s.name t.name
names_in_order _ _ = true

le_of_key : (s t : Text) → (if s == t then true else le s t) ≡ true → le s t ≡ true
le_of_key s t h = elim (Bool-cases (s == t)) [
  | inl same ↦ rw ((eq_iff s t).0 same) (le_refl t)
  | inr other ↦ (rw other at h)
]

le_op-names_in_order : (a b : PlanOp) → le_op a b ≡ true → names_in_order a b ≡ true
unfolding names_in_order plan_op_sort_key le
le_op-names_in_order (drop_index s i) (drop_index t j) h = h
le_op-names_in_order (create_table s) (create_table t) h = le_of_key s.name t.name h
le_op-names_in_order (add_column s c) (add_column t d) h = h
le_op-names_in_order (rebuild_table s a b c) (rebuild_table t d e f) h = le_of_key s t h
le_op-names_in_order (create_index s i) (create_index t j) h = h
le_op-names_in_order (drop_table s) (drop_table t) h = le_of_key s.name t.name h
le_op-names_in_order _ _ h = refl

-- Sorted operations of one kind are in the order of their names.
pub names_in_order_of_IsSorted :
    (ops : List PlanOp) → IsSorted le_op ops → IsSorted names_in_order ops
names_in_order_of_IsSorted [] h = tt
names_in_order_of_IsSorted (a ∷ []) h = tt
names_in_order_of_IsSorted (a ∷ b ∷ ops) h =
    (le_op-names_in_order a b h.0, names_in_order_of_IsSorted (b ∷ ops) h.1)
