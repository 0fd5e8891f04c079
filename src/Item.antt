-- ===== src/Item.antt =====
-- The item that both worker pools send: a key and the text sealed under it, as one new version.
use file_cipher_core.Prelude.{ℕ, ◌≡◌, refl, length}
use file_cipher_core.Entity.{Uuid, Bytes, FlushItem}
use file_cipher_core.Env.{ok}
use file_cipher_core.Crypto.{Gcm, decrypt, key_size}

-- The literal entity.FlushItem{…} of encryptWorker and of rotationWorker.
unfoldable pub new_item : Uuid → Uuid → ℕ → Bytes → Bytes → Bytes → ℕ → FlushItem
new_item uuid file_id version key ciphertext nonce now = record {
  key = record { uuid = uuid; key = key; version = version; created_at = now };
  chunk = record {
    uuid = uuid;
    file_id = file_id;
    ciphertext = ciphertext;
    nonce = nonce;
    version = version;
    created_at = now;
  };
}

-- The two halves of an item agree, and the text opens under the key to `plain`.
pub record Seals (g : Gcm) (uuid file_id : Uuid) (version : ℕ) (plain : Bytes) (item : FlushItem)
    : Type 0 where
  pub opens : decrypt g item.key.key item.chunk.ciphertext item.chunk.nonce ≡ ok plain
  pub key_length : length item.key.key ≡ key_size
  pub key_uuid : item.key.uuid ≡ uuid
  pub data_uuid : item.chunk.uuid ≡ uuid
  pub data_file : item.chunk.file_id ≡ file_id
  pub key_version : item.key.version ≡ version
  pub data_version : item.chunk.version ≡ version

pub new_item-Seals :
    (g : Gcm) (uuid file_id version : ℕ) (key c n plain : Bytes) (now : ℕ)
    → decrypt g key c n ≡ ok plain
    → length key ≡ key_size
    → Seals g uuid file_id version plain (new_item uuid file_id version key c n now)
unfolding new_item
new_item-Seals g uuid file_id version key c n plain now e k = record {
  opens = e;
  key_length = k;
  key_uuid = refl;
  data_uuid = refl;
  data_file = refl;
  key_version = refl;
  data_version = refl;
}
