-- ===== src/P2p/Message.antt =====
-- src/p2p/message.rs, and the JSON of serde and the text of addresses, which are parameters.
use gis.Base.{ℕ, Bool, List, Option, if◌then◌else◌}
use gis.Bytes.{Bytes, Text, codes}
use gis.Blockchain.Types.{Block}
use gis.P2p.Addr.{SocketAddr}

pub data Message : Type 0 where
  error : Message
  hand : Text → Text → ℕ → Bool → Text → Message
  shake : Text → Text → ℕ → Bool → ℕ → Message
  ping : ℕ → Bytes → Message
  pong : ℕ → Bytes → Message
  twin loop get_peers : Message
  peers : List Text → Message
  get_block : ℕ → Message
  block : ℕ → Text → Message

-- `serde_json` on messages and blocks, and `parse` and `to_string` of socket addresses.
pub record Codec : Type 0 where
  pub is_utf8 : Bytes → Bool
  pub message_json : Message → Text
  pub parse_message : Text → Option Message
  pub block_json : Block → Text
  pub parse_block : Text → Option Block
  pub addr_text : SocketAddr → Text
  pub parse_addr : Text → Option SocketAddr

unfoldable pub from_bytes : Codec → Bytes → Option Message
from_bytes codec bytes =
    codec.parse_message (if codec.is_utf8 bytes then bytes else codes "Error{}")
