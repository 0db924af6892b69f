-- ===== src/Blockchain/Types.antt =====
-- The data of src/blockchain/block.rs, transaction.rs and types.rs.
use gis.Base.{
  ℕ, ◌+◌, Bool, true, false, ◌&&◌, List, [], Option, none, some, ltb, ◌==◌, if◌then◌else◌, Outcome,
  done, ◌>>=◌,
}
use gis.Bytes.{Bytes, Text, same_hash, hash_difficulty, key_hash_difficulty}
use gis.Dns.Protocol.Types.{DnsRecord}

pub record Transaction : Type 0 where
  pub identity : Bytes
  pub confirmation : Bytes
  pub class : Text
  pub content : Text
  pub pub_key : Bytes

pub record ContactsData : Type 0 where
  pub name : Text
  pub value : Text

pub record DomainData : Type 0 where
  pub domain : Bytes
  pub zone : Text
  pub records : List DnsRecord
  pub contacts : List ContactsData
  pub owners : List Bytes

pub record ZoneData : Type 0 where
  pub name : Text
  pub difficulty : ℕ
  pub yggdrasil : Bool
  pub owners : List Bytes

-- The timestamp is an `i64` as a bit pattern.
pub record Block : Type 0 where
  pub index : ℕ
  pub timestamp : ℕ
  pub version : ℕ
  pub difficulty : ℕ
  pub random : ℕ
  pub nonce : ℕ
  pub transaction : Option Transaction
  pub prev_block_hash : Bytes
  pub hash : Bytes
  pub pub_key : Bytes
  pub signature : Bytes

unfoldable pub new_block : Option Transaction → Bytes → Bytes → ℕ → Block
new_block transaction pub_key prev_block_hash difficulty = record {
  index = 0;
  timestamp = 0;
  version = 0;
  difficulty = difficulty;
  random = 0;
  nonce = 0;
  transaction = transaction;
  prev_block_hash = prev_block_hash;
  hash = [];
  pub_key = pub_key;
  signature = [];
}

abbrev pub is_some {ℓ} : {A : Type ℓ} → Option A → Bool
is_some (some a) = true
is_some none = false

abbrev pub is_none {ℓ} : {A : Type ℓ} → Option A → Bool
is_none (some a) = false
is_none none = true

unfoldable pub is_genesis : Block → Bool
is_genesis block =
    block.index == 1 && is_none block.transaction && same_hash block.prev_block_hash []

-- Both difficulties are taken of the hash.
abbrev total_difficulty : Block → Outcome ℕ
total_difficulty block = do
  diff ← hash_difficulty block.hash
  key_diff ← key_hash_difficulty block.hash
  done (diff + key_diff)

unfoldable pub is_better_than : Block → Block → Outcome Bool
is_better_than block other =
    if is_some block.transaction && is_none other.transaction then done true else do
      my_diff ← total_difficulty block
      it_diff ← total_difficulty other
      done (ltb it_diff my_diff)

pub data BlockQuality : Type 0 where
  good twin future rewind bad fork : BlockQuality

-- The cooldown's time is an `i64`.
pub data MineResult : Type 0 where
  fine wrong_name wrong_data wrong_key wrong_zone not_owned : MineResult
  cooldown : ℕ → MineResult

pub data TransactionType : Type 0 where
  unknown signing domain zone : TransactionType
