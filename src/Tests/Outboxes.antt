-- ===== src/Tests/Outboxes.antt =====
-- Witnesses for the outbox.
use text.Mathlib.TextPositions.{eq_refl}
use boveda_pyme.Prelude.{String, refl, false, none, some, [], ◌∷◌, arith, str_eq, if◌then◌else◌}
use boveda_pyme.Outbox.{enqueue_chunk, OutboxChunk, Outbox, Uploader, pending, drain_outbox_queue}
use boveda_pyme.Outbox.Staged.{enqueue_chunk-IsStaged, IsStaged}
use boveda_pyme.Outbox.Drained.{UploadsFaithfully, drain_outbox_queue-IsStaged}

abbrev queued : String → OutboxChunk
queued i = record {
  id = i;
  tenant_id = "pyme";
  storage_key = i;
  payload_encrypted_path = i;
  state = pending;
  attempts = 0;
  last_error = none;
  created_at = 10;
  updated_at = 10;
  processed_at = none;
  next_retry_at = 10;
}

abbrev sample_outbox : Outbox
sample_outbox = record {
  rows = queued "a" ∷ queued "b" ∷ [];
  files = λ q. some (1 ∷ 2 ∷ []);
  s3 = λ q. none;
}

abbrev put_uploader : Uploader
put_uploader tenant key p s3 = (none, λ q. if str_eq q key then some p else s3 q)

put_uploader-UploadsFaithfully : UploadsFaithfully put_uploader
put_uploader-UploadsFaithfully = record {
  uploads = λ tenant key p s3 h. let same = eq_refl key in ground arith;
  keeps = λ tenant key p s3 j h. ground arith;
}

drain_outbox_queue-IsStaged_example :
    IsStaged (λ i. i) (λ i. i) (drain_outbox_queue put_uploader 20 10 sample_outbox).1
drain_outbox_queue-IsStaged_example =
    drain_outbox_queue-IsStaged (λ i. i) (λ i. i) (λ i j e. e) put_uploader 20 10 sample_outbox
      put_uploader-UploadsFaithfully
      (((refl, refl), refl, λ p. p), (((refl, refl), refl, λ p. p), tt))

enqueue_chunk-IsStaged_example :
    IsStaged (λ i. i) (λ i. i) (enqueue_chunk false 20 "c" "c" "pyme" "c" (3 ∷ []) sample_outbox).1
enqueue_chunk-IsStaged_example =
    enqueue_chunk-IsStaged (λ i. i) (λ i. i) false 20 "c" "pyme" (3 ∷ []) sample_outbox
      (((refl, refl), refl, λ p. p), (((refl, refl), refl, λ p. p), tt))
