-- ===== src/Tests/Data.antt =====
-- A schema with one table, in normal form.
use seekwel.Prelude.{ℕ, refl, false, true, some, [], ◌∷◌, codes, arith, All, le, ◌==◌}
use seekwel.Prelude.Sorting.{sort_by}
use seekwel.Schema.Types.{PrimaryKeyDef, ColumnDef, IndexDef, TableDef, SchemaDef}
use seekwel.Schema.Normalize.{normalized}
use seekwel.Schema.Normalize.Laws.{IsNormal, normalized-IsNormal}
use seekwel.Schema.Canonical.Rows.{IsCleanTable}

abbrev pub id_key : PrimaryKeyDef
id_key = record { name = codes "id"; sql_type = codes "INTEGER" }

abbrev pub active_column : ColumnDef
active_column = record {
  name = codes "active";
  sql_type = codes "INTEGER";
  nullable = false;
  default_sql = some (codes "1");
}

abbrev pub name_index : IndexDef
name_index = record { name = codes "seekwel_idx_a"; column = codes "active"; unique = true }

abbrev pub person : TableDef
person = record {
  name = codes "person";
  primary_key = id_key;
  columns = active_column ∷ [];
  indexes = name_index ∷ [];
}

abbrev pub people : SchemaDef
people = record { tables = person ∷ [] }

pub people-IsNormal : IsNormal people
unfolding normalized sort_by le ◌==◌
people-IsNormal = normalized-IsNormal {S = ℕ} people people refl

pub people-IsClean : All IsCleanTable people.tables
people-IsClean = (
  record {
    name = omega arith;
    primary_key_name = omega arith;
    primary_key_type = omega arith;
    columns = (
      record { name = omega arith; sql_type = omega arith; default_sql = (omega arith, (λ e. cc)) },
      tt,
    );
    indexes = (record { name = omega arith; column = omega arith }, tt);
  },
  tt,
)
