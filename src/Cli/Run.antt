-- ===== src/Cli/Run.antt =====
-- run_pipeline of src/boveda/cli.py: streaming_pipeline with the upload callback, for the chunks of
-- a source that ends without a failure, when the uploads are made in the order of the chunks. An
-- upload that raises sets the shutdown event, and streaming_pipeline then returns without raising;
-- what the writer raises is raised again. This is the run of a pipeline that returns. The compressor, AES-GCM, SHA-256 and UTF-8 are parameters.
pub mod Backed
pub mod Unlinked
pub mod Spared
pub mod Later
pub mod Reads
use boveda_pyme.Prelude.{ℕ, String, Bool, List, Result, ok, err}
use boveda_pyme.Header.{HeaderError, NonceGenerator}
use boveda_pyme.Purge.{World}
use boveda_pyme.Pipeline.{Encrypt, Upload, compress_encrypt_upload}
use boveda_pyme.Backup.{PutObject, UploadError}
use boveda_pyme.Backup.Run.{upload_all}

abbrev pub pipeline_end :
    String
    → Result UploadError (Unit {0})
    → Result HeaderError (Unit {0})
    → Result String (Unit {0})
pipeline_end exc (err _) r = ok tt
pipeline_end exc (ok _) (ok _) = ok tt
pipeline_end exc (ok _) (err _) = err exc

-- `exc` is the text of what the writer raises.
unfoldable pub run_pipeline :
    (List ℕ → List ℕ)
    → Encrypt
    → (List ℕ → String)
    → (String → List ℕ)
    → Bool
    → PutObject
    → ℕ
    → String
    → String
    → List ℕ
    → NonceGenerator
    → List (List ℕ)
    → World
    → Result String (Unit {0}) × World
unfolding upload_all compress_encrypt_upload
run_pipeline compress encrypt sha256 utf8 begins put_object now exc i dek gen chunks w =
    let (sealed, us) = compress_encrypt_upload compress encrypt sha256 dek (utf8 i) 0 gen chunks in
    let (uploaded, w') = upload_all begins put_object now i us w in
    (pipeline_end exc uploaded sealed, w')
