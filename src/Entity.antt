-- ===== src/Entity.antt =====
-- internal/entity: the rows of the two databases and what travels between the services.
use file_cipher_core.Prelude.{ℕ, List, []}

-- A 16-byte UUID is the number that its bytes spell, so that Postgres' order on uuids is `<`.
abbrev pub Uuid : Type 0
Uuid = ℕ

-- uuid.Nil
abbrev pub nil_uuid : Uuid
nil_uuid = 0

abbrev pub Bytes : Type 0
Bytes = List ℕ

-- time.Time, as the nanoseconds that UnixNano gives; 0 stands for the zero value.
abbrev pub Time : Type 0
Time = ℕ

pub record ChunkData : Type 0 where
  pub uuid : Uuid
  pub file_id : Uuid
  pub ciphertext : Bytes
  pub nonce : Bytes
  pub version : ℕ
  pub created_at : Time

pub record ChunkKey : Type 0 where
  pub uuid : Uuid
  pub key : Bytes
  pub version : ℕ
  pub created_at : Time

pub record FlushItem : Type 0 where
  pub key : ChunkKey
  pub chunk : ChunkData

pub record PendingItem : Type 0 where
  pub id : ℕ
  pub item : FlushItem

-- Go's zero values, which a lookup of a missing map key returns.
abbrev pub zero_data : ChunkData
zero_data = record {
  uuid = nil_uuid;
  file_id = nil_uuid;
  ciphertext = [];
  nonce = [];
  version = 0;
  created_at = 0;
}

abbrev pub zero_key : ChunkKey
zero_key = record { uuid = nil_uuid; key = []; version = 0; created_at = 0 }
