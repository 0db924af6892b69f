-- ===== src/Blockchain/Env.antt =====
-- What the blockchain code calls and the repository does not hold: the clock, the hash functions,
-- JSON and signatures; and the functions of hash_utils.rs, transaction.rs and keys.rs over it.
use gis.Base.{
  ℕ, Bool, not, List, [], ◌∷◌, ◌++◌, Option, none, some, leb, if◌then◌else◌, ◌&&◌, Outcome, done,
  panic, ◌>>=◌, ◌≡◌,
}
use gis.Bytes.{Bytes, Text, codes, same_hash, key_hash_difficulty}
use gis.Blockchain.Types.{Block, Transaction, DomainData, ZoneData, TransactionType}
use mathlib.Core.List.{Mem}

-- A row of the tables `domains` and `zones`.
pub record Row : Type 0 where
  pub id : ℕ
  pub timestamp : ℕ
  pub identity : Bytes
  pub confirmation : Bytes
  pub content : Text
  pub pub_key : Bytes

-- `pick_row` is the row that SQLite answers a `LIMIT 1` with no `ORDER BY` by.
pub record Env : Type 0 where
  pub now : ℕ
  pub blakeout : Bytes → Bytes
  pub sha256 : Bytes → Bytes
  pub block_json : Block → Bytes
  pub parse_domain : Text → Option DomainData
  pub parse_zone : Text → Option ZoneData
  pub public_key_ok : Bytes → Bool
  pub signature_ok : Bytes → Bool
  pub verify : Bytes → Bytes → Bytes → Bool
  pub pick_row : List Row → Option Row

-- It answers with one of the rows, if there is any.
pub record PicksRow (env : Env) : Type 0 where
  pub pick_empty : env.pick_row [] ≡ none
  pub pick_some : (r : Row) (rs : List Row) → (s : Row) × (env.pick_row (r ∷ rs) ≡ some s)
  pub pick_mem : (rs : List Row) (r : Row) → env.pick_row rs ≡ some r → Mem r rs

module _ (env : Env) where
  unfoldable pub check_block_hash : Block → Bool
  check_block_hash block =
      same_hash (env.blakeout (env.block_json (record block { hash = []; signature = [] })))
        block.hash

  -- `Keystore::check` panics on a key or a signature that does not decode.
  unfoldable pub keystore_check : Bytes → Bytes → Bytes → Outcome Bool
  keystore_check message public_key signature =
      if not (env.public_key_ok public_key)
      then panic
      else if not (env.signature_ok signature)
      then panic
      else done (env.verify message public_key signature)

  unfoldable pub check_block_signature : Block → Outcome Bool
  check_block_signature block =
      keystore_check (env.block_json (record block { signature = [] })) block.pub_key
        block.signature

  unfoldable pub hash_identity : Text → Option Bytes → Bytes
  hash_identity identity none = env.sha256 (env.sha256 identity)
  hash_identity identity (some key) = env.sha256 (env.sha256 identity ++ key)

  unfoldable pub check_public_key_strength : Bytes → ℕ → Outcome Bool
  check_public_key_strength key strength = do
    difficulty ← key_hash_difficulty (env.blakeout key)
    done (leb strength difficulty)

  -- `Transaction::from_str`.
  unfoldable pub from_str : Text → Text → Text → Bytes → Transaction
  from_str identity method content pub_key = record {
    identity = hash_identity identity none;
    confirmation = hash_identity identity (some pub_key);
    class = method;
    content = content;
    pub_key = pub_key;
  }

  unfoldable pub check_identity : Transaction → Text → Bool
  check_identity t domain =
      same_hash t.identity (hash_identity domain none)
      && same_hash t.confirmation (hash_identity domain (some t.pub_key))

  unfoldable pub get_domain_data : Transaction → Option DomainData
  get_domain_data t =
      if same_hash t.class (codes "domain") then env.parse_domain t.content else none

  unfoldable pub get_type : Option Transaction → TransactionType
  get_type none = TransactionType.signing
  get_type (some t) = elim (get_domain_data t) [
    | some data' ↦ TransactionType.domain
    | none ↦ elim (env.parse_zone t.content) [
      | some data' ↦ TransactionType.zone
      | none ↦ TransactionType.unknown
    ]
  ]
