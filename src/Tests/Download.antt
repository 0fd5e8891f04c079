-- ===== src/Tests/Download.antt =====
-- Downloads of the small world.
use file_cipher_core.Prelude.{zero, suc, ◌≡◌, refl, inl, inr, true, elem, [], ◌∷◌, arith}
use file_cipher_core.Entity.{Uuid, Bytes}
use file_cipher_core.Env.{System, answered, refused, broken, external, ok, err, ids_not_found}
use file_cipher_core.Crypto.{decrypt}
use file_cipher_core.Repository.Sql.{at_version, distinct_uuids}
use file_cipher_core.Repository.Pages.{file_uuids}
use file_cipher_core.Decipher.{DecipherConfig, stream_file}
use file_cipher_core.Decipher.Readable.{Readable}
use file_cipher_core.Decipher.Complete.{
  Downloadable, sent, stream_file_complete, stream_file_unknown,
}
use file_cipher_core.Decipher.Sends.{Sends}
use file_cipher_core.Decipher.Prefix.{stream_file-Sends}
use file_cipher_core.Tests.{toy, key_row, data_row, retries, world}

abbrev pub config : DecipherConfig
config = record { page_size = 1; retry = retries }

abbrev pub plain : Uuid → Bytes
plain id = id ∷ []

unfoldable pub readable_1 : Readable toy world.chunks world.keys 1 (plain 1)
unfolding decrypt
readable_1 = record {
  top_chunk = data_row 1 1;
  top_key = key_row 1 1;
  chunk = data_row 1 1;
  key = key_row 1 1;
  has_chunk = refl;
  has_key = refl;
  chosen = inl (refl, refl, refl);
  opens = refl;
}

readable_2 : Readable toy world.chunks world.keys 2 (plain 2)
unfolding decrypt at_version
readable_2 = record {
  top_chunk = data_row 2 1;
  top_key = key_row 2 2;
  chunk = data_row 2 1;
  key = key_row 2 1;
  has_chunk = refl;
  has_key = refl;
  chosen = inr (omega arith, refl, refl);
  opens = refl;
}

pub readable :
    (id : Uuid)
    → elem id (file_uuids 7 world.chunks) ≡ true
    → Readable toy world.chunks world.keys id (plain id)
unfolding file_uuids distinct_uuids
readable zero h = cc
readable (suc zero) h = readable_1
readable (suc (suc zero)) h = readable_2
readable (suc (suc (suc n))) h = absurd (ground arith)

downloadable : Downloadable toy config plain 7 world
downloadable = record {
  quiet = record { answers = refl; alive = refl };
  page_pos = omega arith;
  tries = 2;
  attempts = refl;
  readable = readable;
}

-- Chunk 2 is read at version 1, the newest that both tables have.
stream_file_complete_example : stream_file toy 3 config 7 world ≡ (ok tt, sent world (1 ∷ 2 ∷ []))
unfolding file_uuids distinct_uuids
stream_file_complete_example =
    stream_file_complete toy config plain 3 7 world downloadable (λ e. cc) (omega arith)

no_file : Downloadable toy config plain 8 world
unfolding file_uuids distinct_uuids
no_file = record {
  quiet = record { answers = refl; alive = refl };
  page_pos = omega arith;
  tries = 2;
  attempts = refl;
  readable = λ id h. cc;
}

stream_file_unknown_example : stream_file toy 1 config 8 world ≡ (err ids_not_found, world)
unfolding file_uuids distinct_uuids
stream_file_unknown_example = stream_file_unknown toy config plain 0 8 world no_file refl

-- The first page is refused once, and the first write breaks.
abbrev faulty : System
faulty = record world {
  script =
      record { takes = 1; fault = refused (external 1) }
      ∷ record { takes = 0; fault = answered }
      ∷ record { takes = 0; fault = answered }
      ∷ record { takes = 0; fault = answered }
      ∷ record { takes = 0; fault = broken 0 (external 2) }
      ∷ [];
}

stream_file-Sends_example :
    Sends world.keys world.chunks [] (1 ∷ 2 ∷ []) (stream_file toy 3 config 7 faulty)
unfolding file_uuids distinct_uuids
stream_file-Sends_example =
    stream_file-Sends toy world.keys world.chunks config plain 7 readable 3 [] faulty (omega arith)
      (record { same_keys = refl; same_chunks = refl; sent_so_far = refl })
