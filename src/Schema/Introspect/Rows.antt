-- ===== src/Schema/Introspect/Rows.antt =====
-- The rows of the catalogue of SQLite, as src/schema/introspect.rs reads them.
use seekwel.Prelude.{
  Bool, not, Option, none, some, List, [], ◌∷◌, ◌++◌, Text, codes, ◌==◌, if◌then◌else◌,
}
use seekwel.Prelude.Integers.{ℤ, is_number}
use seekwel.Prelude.Maps.{TreeMap, insert_entry, get}
use seekwel.Errors.{Result, ok, ◌>>=◌}
use seekwel.Connection.Act.{Sqlite}
use seekwel.Schema.Introspect.Identifiers.{is_managed_index_name}

pub record ColumnRow : Type 0 where
  pub name : Text
  pub sql_type : Text
  pub not_null : Bool
  pub default_sql : Option Text
  pub pk : ℤ
  pub hidden : ℤ

pub record IndexRow : Type 0 where
  pub name : Text
  pub unique : Bool
  pub partial : Bool

pub data ReplayKind : Type 0 where
  index trigger view : ReplayKind

pub record ReplaySqlWithTable : Type 0 where
  pub name : Text
  pub kind : ReplayKind
  pub tbl_name : Text
  pub sql : Text

abbrev pub unwrap_or_default : Option Text → Text
unwrap_or_default none = []
unwrap_or_default (some s) = s

abbrev pub list_or_default : {A : Type 0} → Option (List A) → List A
list_or_default none = []
list_or_default (some xs) = xs

module _ {S R Row D : Type 0} (sqlite : Sqlite S R Row D) where
  unfoldable pub column_row : Row → Result S ColumnRow
  column_row row = do
    name ← sqlite.text_at 1 row
    sql_type ← sqlite.optional_text_at 2 row
    not_null ← sqlite.integer_at 3 row
    default_sql ← sqlite.optional_text_at 4 row
    pk ← sqlite.integer_at 5 row
    hidden ← sqlite.integer_at 6 row
    ok (record {
      name = name;
      sql_type = unwrap_or_default sql_type;
      not_null = not (is_number 0 not_null);
      default_sql = default_sql;
      pk = pk;
      hidden = hidden;
    })

  unfoldable pub index_row : Row → Result S IndexRow
  index_row row = do
    name ← sqlite.text_at 1 row
    unique ← sqlite.integer_at 2 row
    partial ← sqlite.integer_at 4 row
    ok (record {
      name = name;
      unique = not (is_number 0 unique);
      partial = not (is_number 0 partial);
    })

  -- The columns of an index; one on an expression has no name.
  unfoldable pub column_names_of : List (Result S Row) → Result S (List Text)
  column_names_of [] = ok []
  column_names_of (row ∷ rows) =
      let rest = column_names_of rows in
      row >>= λ r. sqlite.optional_text_at 2 r >>= λ column.
      rest >>= λ names. ok (elim column [ none ↦ names | some name ↦ name ∷ names ])

  -- `objects.entry(table).or_default().push(sql)`
  abbrev push_replay : Text → Text → TreeMap (List Text) → TreeMap (List Text)
  push_replay table sql objects =
      insert_entry table (list_or_default (get objects table) ++ (sql ∷ [])) objects

  -- Triggers, and the indexes that are not managed, by their table.
  replay_row : Text → Text → Text → Text → TreeMap (List Text) → TreeMap (List Text)
  replay_row name kind table sql objects =
      if kind == codes "index"
      then if is_managed_index_name name then objects else push_replay table sql objects
      else if kind == codes "trigger"
      then push_replay table sql objects
      else objects

  unfoldable pub group_replays :
      TreeMap (List Text) → List (Result S Row) → Result S (TreeMap (List Text))
  unfolding replay_row
  group_replays objects [] = ok objects
  group_replays objects (row ∷ rows) = do
    r ← row
    name ← sqlite.text_at 0 r
    kind ← sqlite.text_at 1 r
    table ← sqlite.text_at 2 r
    sql ← sqlite.text_at 3 r
    group_replays (replay_row name kind table sql objects) rows

unfoldable pub kind_of : Text → Option ReplayKind
kind_of kind =
    if kind == codes "view"
    then some view
    else if kind == codes "trigger"
    then some trigger
    else none
