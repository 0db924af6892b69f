-- ===== src/Blockchain/Chain/State.antt =====
-- The state of a `Chain`, and the SQL statements of chain.rs on its three tables. A row of `blocks`
-- is the block that it encodes. SQLite compares an id as an `i64`.
use gis.Base.{
  ℕ, Bool, true, false, List, [], ◌∷◌, ◌++◌, Option, none, some, ◌==◌, if◌then◌else◌, any, lt_i64,
}
use gis.Bytes.{Bytes, Text, same_hash}
use gis.Blockchain.Types.{Block}
use gis.Blockchain.Env.{Row}

pub record Db : Type 0 where
  pub blocks : List Block
  pub domains : List Row
  pub zones : List Row

-- `zone_names` is the cache `zones`, and the last two fields are `SignersCache`.
pub record Chain : Type 0 where
  pub origin : Bytes
  pub last_block : Option Block
  pub last_full_block : Option Block
  pub max_height : ℕ
  pub db : Db
  pub zone_names : List Text
  pub signers_index : ℕ
  pub signers : List Bytes

unfoldable pub get_height : Chain → ℕ
get_height c = elim c.last_block [ none ↦ 0 | some block ↦ block.index ]

unfoldable pub get_last_hash : Chain → Bytes
get_last_hash c = elim c.last_block [ none ↦ [] | some block ↦ block.hash ]

abbrev pub update_max_height : ℕ → Chain → Chain
update_max_height height c = record c { max_height = height }

-- `contains` of a set of byte strings or texts.
unfoldable pub contains : Bytes → List Bytes → Bool
contains x [] = false
contains x (y ∷ ys) = if same_hash y x then true else contains x ys

-- `SELECT * FROM blocks WHERE id=? LIMIT 1`: ids are distinct.
unfoldable pub find_block : ℕ → List Block → Option Block
find_block index [] = none
find_block index (b ∷ bs) = if b.index == index then some b else find_block index bs

-- `ORDER BY id DESC LIMIT 1` among the blocks of a condition.
unfoldable pub latest : (Block → Bool) → List Block → Option Block
latest p [] = none
latest p (b ∷ bs) =
    let rest = latest p bs in
    if p b
    then elim rest [ none ↦ some b | some c ↦ if lt_i64 b.index c.index then some c else some b ]
    else rest

unfoldable pub latest_row : (Row → Bool) → List Row → Option Row
latest_row p [] = none
latest_row p (r ∷ rs) =
    let rest = latest_row p rs in
    if p r
    then elim rest [ none ↦ some r | some s ↦ if lt_i64 r.id s.id then some s else some r ]
    else rest

unfoldable pub keep_rows : (Row → Bool) → List Row → List Row
keep_rows p [] = []
keep_rows p (r ∷ rs) = let rest = keep_rows p rs in if p r then r ∷ rest else rest

-- `DELETE ... WHERE id >= ?` keeps the blocks and rows below.
unfoldable pub truncate_blocks : ℕ → List Block → List Block
truncate_blocks index [] = []
truncate_blocks index (b ∷ bs) =
    let rest = truncate_blocks index bs in if lt_i64 b.index index then b ∷ rest else rest

unfoldable pub truncate_db_from_block : ℕ → Db → Db
truncate_db_from_block index db = record {
  blocks = truncate_blocks index db.blocks;
  domains = keep_rows (λ r. lt_i64 r.id index) db.domains;
  zones = keep_rows (λ r. lt_i64 r.id index) db.zones;
}

-- `INSERT` refuses an id that is there already; `none` is the error. The new row stands last.
unfoldable pub add_block_to_table : Block → Db → Option Db
add_block_to_table block db = elim (find_block block.index db.blocks) [
  | some old ↦ none
  | none ↦ some (record db { blocks = db.blocks ++ (block ∷ []) })
]

unfoldable pub has_id : ℕ → List Row → Bool
has_id id rows = any (λ r. r.id == id) rows

abbrev pub insert_row : Row → List Row → Option (List Row)
insert_row r rows = if has_id r.id rows then none else some (rows ++ (r ∷ []))
