-- ===== src/Schema/Affinity.antt =====
-- `SqlAffinity` of src/schema/types.rs.
use seekwel.Prelude.{ℕ, Bool, ◌&&◌, ◌||◌, [], ◌∷◌, map, Text, codes, eqb, is_empty, if◌then◌else◌}
use seekwel.Prelude.Search.{to_ascii_uppercase, contains}
use seekwel.Connection.Log.{is_whitespace}

pub data SqlAffinity : Type 0 where
  integer real text blob numeric : SqlAffinity

-- `trim` takes the white space off both ends.
trim_start : Text → Text
trim_start [] = []
trim_start (c ∷ s) = let rest = trim_start s in if is_whitespace c then rest else c ∷ s

trim_end : Text → Text
trim_end [] = []
trim_end (c ∷ s) =
    let rest = trim_end s in if is_whitespace c && is_empty rest then [] else c ∷ rest

unfoldable pub trim : Text → Text
unfolding trim_start trim_end
trim s = trim_end (trim_start s)

unfoldable pub from_declared_type : Text → SqlAffinity
unfolding to_ascii_uppercase contains trim
from_declared_type declared =
    let upper = map to_ascii_uppercase (trim declared) in
    if contains (codes "INT") upper
    then integer
    else if contains (codes "CHAR") upper
        || (contains (codes "CLOB") upper || contains (codes "TEXT") upper)
    then text
    else if contains (codes "BLOB") upper || is_empty upper
    then blob
    else if contains (codes "REAL") upper
        || (contains (codes "FLOA") upper || contains (codes "DOUB") upper)
    then real
    else numeric

rank : SqlAffinity → ℕ
rank integer = 0
rank real = 1
rank text = 2
rank blob = 3
rank numeric = 4

-- The derived comparison.
unfoldable pub same_affinity : SqlAffinity → SqlAffinity → Bool
unfolding rank
same_affinity a b = eqb (rank a) (rank b)
