-- ===== src/Blockchain/Chain/Queries.antt =====
-- The read-only queries of `Chain` on blocks, identities, zones and domains.
use gis.Base.{
  ℕ, ◌-◌, ◌^◌, Bool, true, false, ◌&&◌, not, List, [], ◌∷◌, Option, none, some, ltb, ◌==◌,
  if◌then◌else◌, any, lt_i64, add64, sub64, i64_max, max,
}
use gis.Bytes.{Bytes, Text, codes, is_empty, same_hash}
use gis.Commons.{
  check_domain, get_domain_zone, rsplit_dot, domain_lifetime, new_domains_interval,
  block_signers_start, block_signers_min, zone_difficulty,
}
use gis.Dns.Buffer.{to_lowercase}
use gis.Blockchain.Types.{Block, Transaction, ZoneData, MineResult, is_some}
use gis.Blockchain.Env.{Env, Row, hash_identity, check_identity}
use gis.Blockchain.Chain.State.{
  Chain, Db, get_height, contains, find_block, latest, latest_row, keep_rows,
}

unfoldable pub get_block : ℕ → Chain → Option Block
get_block index c = find_block index c.db.blocks

-- The condition of the two statements for the last full block.
abbrev pub is_full_before : ℕ → Option Bytes → Block → Bool
is_full_before before none b = lt_i64 b.index before && is_some b.transaction
is_full_before before (some key) b =
    lt_i64 b.index before && is_some b.transaction && same_hash b.pub_key key

abbrev pub key_fits : Option Bytes → Block → Bool
key_fits none b = true
key_fits (some key) b = same_hash b.pub_key key

-- The cached block is compared as a `u64`, the blocks of the table as an `i64`.
unfoldable pub get_last_full_block : ℕ → Option Bytes → Chain → Option Block
get_last_full_block before pub_key c =
    let query = latest (is_full_before before pub_key) c.db.blocks in
    elim c.last_full_block [
      | none ↦ query
      | some block ↦ if ltb block.index before && key_fits pub_key block then some block else query
    ]

abbrev pub table : Bool → Db → List Row
table true db = db.zones
table false db = db.domains

-- `SELECT pub_key ... WHERE id < ? AND identity = ? LIMIT 1`, as the rows that it may pick from.
unfoldable pub rows_before : ℕ → Bytes → Bool → Db → List Row
rows_before height identity zone db =
    keep_rows (λ r. lt_i64 r.id height && same_hash r.identity identity) (table zone db)

-- `map.insert` of `get_zones`: a later zone of the same name takes the place of an earlier one.
unfoldable pub put_zone : ZoneData → List ZoneData → List ZoneData
put_zone z [] = z ∷ []
put_zone z (y ∷ ys) = if same_hash y.name z.name then z ∷ ys else y ∷ put_zone z ys

unfoldable pub find_zone : Text → List ZoneData → Option ZoneData
find_zone name [] = none
find_zone name (z ∷ zs) = if same_hash z.name name then some z else find_zone name zs

module _ (env : Env) where
  unfoldable pub is_id_available : ℕ → Bytes → Bytes → Bool → Chain → Bool
  is_id_available height identity public_key zone c =
      elim (env.pick_row (rows_before height identity zone c.db)) [
        | none ↦ true
        | some r ↦ same_hash r.pub_key public_key
      ]

  unfoldable pub is_id_in_blockchain : ℕ → Bytes → Bool → Chain → Bool
  is_id_in_blockchain height id zone c = is_some (env.pick_row (rows_before height id zone c.db))

  -- The answer comes with the chain, whose cache of zone names may have grown.
  unfoldable pub is_zone_in_blockchain : ℕ → Text → Chain → Bool × Chain
  is_zone_in_blockchain height zone c =
      if contains zone c.zone_names
      then (true, c)
      else if is_id_in_blockchain height (hash_identity env zone none) true c
      then (true, record c { zone_names = zone ∷ c.zone_names })
      else (false, c)

  -- The map is filled in the order of the rows.
  unfoldable pub fill_zones : List ZoneData → List Row → List ZoneData
  fill_zones zones [] = zones
  fill_zones zones (r ∷ rs) = elim (env.parse_zone r.content) [
    | none ↦ fill_zones zones rs
    | some z ↦ fill_zones (put_zone z zones) rs
  ]

  unfoldable pub get_zones : Chain → List ZoneData
  get_zones c = fill_zones [] c.db.zones

  unfoldable pub get_zone_difficulty : Text → Chain → ℕ
  get_zone_difficulty zone c = elim (find_zone zone (get_zones c)) [
    | none ↦ 2 ^ 32 - 1
    | some z ↦ z.difficulty
  ]

  unfoldable pub get_difficulty_for_transaction : Transaction → Chain → ℕ
  get_difficulty_for_transaction t c =
      if same_hash t.class (codes "domain")
      then elim (env.parse_domain t.content) [
        | none ↦ 2 ^ 32 - 1
        | some domain ↦ elim (find_zone domain.zone (get_zones c)) [
          | none ↦ 2 ^ 32 - 1
          | some z ↦ z.difficulty
        ]
      ]
      else if same_hash t.class (codes "zone")
      then zone_difficulty
      else 2 ^ 32 - 1

  abbrev row_transaction : Row → Transaction
  row_transaction r = record {
    identity = r.identity;
    confirmation = r.confirmation;
    class = codes "domain";
    content = r.content;
    pub_key = r.pub_key;
  }

  unfoldable pub get_domain_transaction : Text → Chain → Option Transaction
  get_domain_transaction domain c =
      if is_empty domain
      then none
      else elim (latest_row (λ r. same_hash r.identity (hash_identity env domain none))
          c.db.domains) [
            | none ↦ none
            | some r ↦
                if lt_i64 r.timestamp (sub64 env.now domain_lifetime)
                then none
                else if check_identity env (row_transaction r) domain
                then some (row_transaction r)
                else none
          ]

  -- Third-level names are refused; a second-level one needs its zone.
  unfoldable pub is_domain_available : ℕ → Text → Bytes → Chain → Bool × Chain
  is_domain_available height domain public_key c =
      if is_empty domain
      then (false, c)
      else if not (is_id_available height (hash_identity env domain none) public_key false c)
      then (false, c)
      else let (zone, before) = rsplit_dot domain in
        elim before [
          | none ↦ (true, c)
          | some name ↦
              if any (λ b. b == b'.') name then (false, c) else is_zone_in_blockchain height zone c
        ]

  abbrev not_owned_by : Bytes → Option Transaction → Bool
  not_owned_by pub_key none = false
  not_owned_by pub_key (some t) = not (same_hash t.pub_key pub_key)

  -- The last part of `can_mine_domain`: a key waits a day between two new names.
  unfoldable pub cooldown_result : ℕ → Text → Bytes → Chain → MineResult
  cooldown_result height name pub_key c = elim (get_last_full_block i64_max (some pub_key) c) [
    | none ↦ MineResult.fine
    | some last ↦
        let new_id = not (is_id_in_blockchain height (hash_identity env name none) false c) in
        let time = sub64 (add64 last.timestamp new_domains_interval) env.now in
        if new_id && lt_i64 0 time then MineResult.cooldown time else MineResult.fine
  ]

  unfoldable pub can_mine_domain : ℕ → Text → Bytes → Chain → MineResult × Chain
  can_mine_domain height domain pub_key c =
      let name = to_lowercase domain in
      if not (check_domain name true)
      then (MineResult.wrong_name, c)
      else let (has_zone, c') = is_zone_in_blockchain height (get_domain_zone name) c in
        if not has_zone
        then (MineResult.wrong_zone, c')
        else if not_owned_by pub_key (get_domain_transaction name c')
        then (MineResult.not_owned, c')
        else (cooldown_result height name pub_key c', c')

unfoldable pub next_allowed_full_block : Chain → ℕ
next_allowed_full_block c = elim c.last_full_block [
  | none ↦ add64 (get_height c) 1
  | some block ↦
      if ltb block.index block_signers_start
      then add64 (get_height c) 1
      else max (add64 block.index block_signers_min) (add64 (get_height c) 1)
]
