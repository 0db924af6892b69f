-- ===== src/P2p/Network/Context.antt =====
-- The part of src/context.rs that the network uses, with the events of src/event.rs that it posts.
use gis.Base.{ℕ, Bool, List, ◌∷◌, [], ◌++◌}
use gis.Bytes.{Text}
use gis.Blockchain.Chain.State.{Chain}

pub data Event : Type 0 where
  zones_changed sync_finished : Event
  blockchain_changed : ℕ → Event
  network_status : ℕ → ℕ → Event
  syncing : ℕ → ℕ → Event

-- `origin` and `public` are settings, `zone_hashes` the set of `ExternalZones`, and `posted` what was
-- posted on the bus.
pub record Context : Type 0 where
  pub app_version : Text
  pub origin : Text
  pub public : Bool
  pub zone_hashes : List Text
  pub chain : Chain
  pub posted : List Event

abbrev pub post : Event → Context → Context
post e x = record x { posted = x.posted ++ (e ∷ []) }

abbrev pub set_chain : Chain → Context → Context
set_chain c x = record x { chain = c }
