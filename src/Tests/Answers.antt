-- ===== src/Tests/Answers.antt =====
-- Requests to the three handlers.
use file_cipher_core.Prelude.{refl, true, none, some, [], ◌∷◌, arith}
use file_cipher_core.Entity.{Uuid, nil_uuid, Bytes}
use file_cipher_core.Env.{Outcome, err, answered, refused, external, System, Exec}
use file_cipher_core.Repository.Sql.Uuids.{after}
use file_cipher_core.Repository.Pages.{file_uuids}
use file_cipher_core.Crypto.{decrypt}
use file_cipher_core.Retry.{retry_do}
use file_cipher_core.Repository.Sql.{distinct_uuids, at_version}
use file_cipher_core.Repository.Tables.{
  get_chunk_uuids_by_file_id, page_of, get_latest_data, get_latest_keys, get_data_by_version,
  get_key_by_version,
}
use file_cipher_core.Decipher.{
  decrypt_chunk, write_out, get_consistent_version, stream_file, stream_pages,
}
use file_cipher_core.Decipher.Complete.{contents}
use file_cipher_core.Http.{
  Server, Response, download, rotate, encrypt, logging, streamed, download_failed, hijack,
}
use file_cipher_core.Http.Download.{Honest, download-Honest}
use file_cipher_core.Http.Answers.{Recorded, logging-Recorded, Tells, handlers-Tells}
use file_cipher_core.Tests.{toy, world}
use file_cipher_core.Tests.Download.{config, plain, readable}
use file_cipher_core.Tests.Messages.{short}

abbrev plain_server : Server
plain_server = record { hijacker = true; hijack_error = none }

abbrev fine : Outcome
fine = record { takes = 0; fault = answered }

-- The second write breaks: the connection is closed behind the first chunk.
abbrev second_breaks : System
second_breaks = record world {
  script =
      fine
      ∷ fine
      ∷ fine
      ∷ fine
      ∷ fine
      ∷ fine
      ∷ fine
      ∷ fine
      ∷ fine
      ∷ record { takes = 1; fault = refused (external 1) }
      ∷ [];
}

abbrev seven : Bytes
seven = 7 ∷ []

abbrev closed : Response
closed = record { status = some 200; recorded = 200; cut = true }

download-Honest_example :
    Honest
      (contents plain (after nil_uuid (file_uuids 7 world.chunks)))
      closed
      (record world { now = 11; output = 1 ∷ []; wrote = true })
unfolding logging download streamed download_failed hijack stream_file stream_pages retry_do
    get_chunk_uuids_by_file_id page_of distinct_uuids get_latest_data get_latest_keys decrypt_chunk
    decrypt write_out get_consistent_version get_data_by_version at_version get_key_by_version
download-Honest_example =
    download-Honest toy world.keys world.chunks config plain 7 readable short seven plain_server 3
      second_breaks closed (record world { now = 11; output = 1 ∷ []; wrote = true }) refl refl refl
      (omega arith) (record { same_keys = refl; same_chunks = refl; sent_so_far = refl }) refl

abbrev fails : Uuid → Exec (Unit {0})
fails id s = (err (external 4), s)

logging-Recorded_example :
    Recorded (logging (download short fails seven) plain_server world)
    × Recorded (logging (rotate short fails seven) plain_server world)
    × Recorded (logging (encrypt short fails (some 9)) plain_server world)
logging-Recorded_example = logging-Recorded plain_server short seven (some 9) fails world

handlers-Tells_example :
    Tells 200 (fails 7 world).0 (logging (rotate short fails seven) plain_server world)
    × Tells 201 (fails 7 world).0 (logging (encrypt short fails (some 7)) plain_server world)
handlers-Tells_example = handlers-Tells plain_server short seven 7 fails world refl
