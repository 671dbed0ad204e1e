-- ===== src/Pipeline/Tasks/Complete.antt =====
-- What has been uploaded when streaming_pipeline of src/boveda/engine.py returns.
use boveda_pyme.Prelude.{
  ℕ, ◌+◌, String, ◌≡◌, refl, sym, ap, ◌∙◌, Bool, true, false, Option, none, some, List, [], ◌∷◌,
  ◌++◌, append_assoc, append-nil, arith, Result, ok,
}
use boveda_pyme.Header.{HeaderError, NonceGenerator}
use boveda_pyme.Pipeline.{Upload, Encrypt, seal, and_then, compress_encrypt_upload}
use boveda_pyme.Pipeline.Tasks.{
  Reader, Writer, UploadTask, Tasks, Step, Reach, starting, spawn, spawn_raises, is_read_failed,
  feeding, exiting, read_done, read_failed, getting, acquiring, write_done, no_task, uploading,
  returned, is_feeding, is_write_done, is_write_failed, both_done, after_exit, after_failure,
  after_wait, ReturnCode, start, put, put_sentinel, stop_reading, exit, get, get_raises,
  get_sentinel, stop_writing, stop_writing_late, acquire, upload_returns, upload_skipped,
  upload_raises, gathered, wake, here, next, is_read_done,
}

abbrev Sealed : Type 0
Sealed = Result HeaderError (Unit {0}) × List Upload

abbrev left : Reader → List (List ℕ)
left (starting cs) = cs
left (feeding cs) = cs
left _ = []

abbrev waiting_in : List (Option (List ℕ)) → List (List ℕ)
waiting_in [] = []
waiting_in (none ∷ q) = []
waiting_in (some c ∷ q) = c ∷ waiting_in q

abbrev in_flight : UploadTask → List Upload
in_flight no_task = []
in_flight (uploading u) = u ∷ []

abbrev held : Writer → List Upload
held (acquiring seq gen u) = u ∷ []
held _ = []

abbrev pub has_sentinel : List (Option (List ℕ)) → Bool
has_sentinel [] = false
has_sentinel (none ∷ q) = true
has_sentinel (some c ∷ q) = has_sentinel q

abbrev prepend : List Upload → Sealed → Sealed
prepend us (r, vs) = (r, us ++ vs)

prepend-append :
    (us vs : List Upload) (d : Sealed) → prepend (us ++ vs) d ≡ prepend us (prepend vs d)
prepend-append us vs (r, ws) = ap (λ x. (r, x)) (append_assoc us vs ws)

left_not_feeding : (r : Reader) → is_feeding r ≡ false → left r ≡ []
left_not_feeding (starting cs) h = cc
left_not_feeding (feeding cs) h = cc
left_not_feeding exiting h = refl
left_not_feeding read_done h = refl
left_not_feeding read_failed h = refl

after_exit_not_feeding :
    (shutdown : Bool) (code : ReturnCode) → is_feeding (after_exit shutdown code) ≡ false
unfolding after_exit
after_exit_not_feeding shutdown code = ground arith

is_write_done-eq : (w : Writer) → is_write_done w ≡ true → w ≡ write_done
is_write_done-eq w h = ground arith

is_read_done-eq : (r : Reader) → is_read_done r ≡ true → r ≡ read_done
is_read_done-eq r h = ground arith

module _ (compress : List ℕ → List ℕ) (encrypt : Encrypt) (sha256 : List ℕ → String)
    (dek snapshot_id : List ℕ) (all : List (List ℕ)) (gen0 : NonceGenerator) where
  abbrev sealed : ℕ → NonceGenerator → List (List ℕ) → Sealed
  sealed seq gen cs = compress_encrypt_upload compress encrypt sha256 dek snapshot_id seq gen cs

  -- What the writer has still to hand over, given the chunks that will reach it.
  abbrev to_come : Writer → List (List ℕ) → Sealed
  to_come (getting seq gen) cs = sealed seq gen cs
  to_come (acquiring seq gen u) cs = sealed seq gen cs
  to_come _ cs = (ok tt, [])

  abbrev joined : Reader → Writer → UploadTask → List (Option (List ℕ)) → List Upload → Sealed
  joined r w t q us =
      prepend us (prepend (in_flight t) (prepend (held w) (to_come w (waiting_in q ++ left r))))

  record IsComplete (s : Tasks) : Type 0 where
    account :
        s.shutdown ≡ false
        → is_write_failed s.writer ≡ false
        → is_read_failed s.reader ≡ false
        → joined s.reader s.writer s.task s.queue s.uploaded ≡ sealed 0 gen0 all
    sentinel : has_sentinel s.queue ≡ true → is_feeding s.reader ≡ false
    done : is_write_done s.writer ≡ true → s.task ≡ no_task
    end : s.shutdown ≡ false → s.main ≡ returned → both_done s ≡ true

  got :
      (seq : ℕ) (gen gen' : NonceGenerator) (c : List ℕ) (u : Upload) (cs : List (List ℕ))
      → seal compress encrypt sha256 dek snapshot_id seq gen c ≡ ok (u, gen')
      → sealed seq gen (c ∷ cs) ≡ and_then u (sealed (seq + 1) gen' cs)
  unfolding compress_encrypt_upload
  got seq gen gen' c u cs e = rw (e, compress_encrypt_upload) refl

  Step-IsComplete :
      {s t : Tasks} → Step compress encrypt sha256 dek snapshot_id s t → IsComplete s → IsComplete t
  unfolding after_exit after_failure after_wait compress_encrypt_upload
  Step-IsComplete {s} (spawn cs r) i = record {
    account = λ ns nf rf. rw r at (i.account ns nf (ground arith));
    sentinel = ground (arith, i.sentinel);
    done = ground (arith, i.done);
    end = ground (arith, i.end);
  }
  Step-IsComplete {s} (spawn_raises cs r) i = record {
    account = λ ns nf rf. absurd (cc);
    sentinel = ground (arith, i.sentinel);
    done = ground (arith, i.done);
    end = ground (arith, i.end);
  }
  Step-IsComplete {s} (put c cs r q) i = record {
    account = λ ns nf rf. rw (r, q) at (i.account ns nf (ground arith));
    sentinel = ground (arith, i.sentinel);
    done = ground (arith, i.done);
    end = ground (arith, i.end);
  }
  Step-IsComplete {s} (put_sentinel r q) i = record {
    account = λ ns nf rf. rw (r, q) at (i.account ns nf (ground arith));
    sentinel = ground (arith, i.sentinel);
    done = ground (arith, i.done);
    end = ground (arith, i.end);
  }
  Step-IsComplete {s} (stop_reading cs r h) i = record {
    account = λ ns nf rf. absurd (cc);
    sentinel = ground (arith, i.sentinel);
    done = ground (arith, i.done);
    end = ground (arith, i.end);
  }
  Step-IsComplete {s} (exit code r) i = record {
    account = λ ns nf rf.
        rw (left_not_feeding _ (after_exit_not_feeding s.shutdown code))
          (rw r at (i.account ns nf (ground arith)));
    sentinel = ground (arith, i.sentinel);
    done = ground (arith, i.done);
    end = ground (arith, i.end);
  }
  Step-IsComplete {s} (get seq gen gen' c u w q e) i = record {
    account = λ ns nf rf.
        rw (got seq gen gen' c u (left s.reader) e) at
          (rw (w, q) at (i.account ns (ground arith) rf));
    sentinel = ground (arith, i.sentinel);
    done = ground (arith, i.done);
    end = ground (arith, i.end);
  }
  Step-IsComplete {s} (get_raises seq gen c e w q h) i = record {
    account = λ ns nf rf. absurd (cc);
    sentinel = ground (arith, i.sentinel);
    done = ground (arith, i.done);
    end = ground (arith, i.end);
  }
  Step-IsComplete {s} (get_sentinel seq gen w q) i = record {
    account = λ ns nf rf.
        rw (left_not_feeding s.reader (i.sentinel (ground arith))) at
          (rw (w, q) at (i.account ns (ground arith) rf));
    sentinel = ground (arith, i.sentinel);
    done = ground (arith, i.done);
    end = ground (arith, i.end);
  }
  Step-IsComplete {s} (stop_writing seq gen w h) i = record {
    account = λ ns nf rf. absurd (cc);
    sentinel = ground (arith, i.sentinel);
    done = ground (arith, i.done);
    end = ground (arith, i.end);
  }
  Step-IsComplete {s} (stop_writing_late seq gen c w q h) i = record {
    account = λ ns nf rf. absurd (cc);
    sentinel = ground (arith, i.sentinel);
    done = ground (arith, i.done);
    end = ground (arith, i.end);
  }
  Step-IsComplete {s} (acquire seq gen u w t) i = record {
    account = λ ns nf rf. rw (w, t) at (i.account ns (ground arith) rf);
    sentinel = ground (arith, i.sentinel);
    done = ground (arith, i.done);
    end = ground (arith, i.end);
  }
  Step-IsComplete {s} (upload_returns u t) i = record {
    account = λ ns nf rf.
        rw
          (prepend-append s.uploaded (u ∷ [])
            (prepend (held s.writer) (to_come s.writer (waiting_in s.queue ++ left s.reader))))
          (rw t at (i.account ns nf rf));
    sentinel = ground (arith, i.sentinel);
    done = ground (arith, i.done);
    end = ground (arith, i.end);
  }
  Step-IsComplete {s} (upload_skipped u t h) i = record {
    account = λ ns nf rf. absurd (cc);
    sentinel = ground (arith, i.sentinel);
    done = ground (arith, i.done);
    end = ground (arith, i.end);
  }
  Step-IsComplete {s} (upload_raises u t) i = record {
    account = λ ns nf rf. absurd (cc);
    sentinel = ground (arith, i.sentinel);
    done = ground (arith, i.done);
    end = ground (arith, i.end);
  }
  Step-IsComplete {s} (gathered w t) i = record {
    account = λ ns nf rf. rw w at (i.account ns (ground arith) rf);
    sentinel = ground (arith, i.sentinel);
    done = ground (arith, i.done);
    end = ground (arith, i.end);
  }
  Step-IsComplete {s} (wake m h) i = record {
    account = i.account;
    sentinel = ground (arith, i.sentinel);
    done = ground (arith, i.done);
    end = ground (arith, i.end);
  }

  Reach-IsComplete :
      {s : Tasks}
      → Reach compress encrypt sha256 dek snapshot_id (start 0 gen0 all) s
      → IsComplete s
  Reach-IsComplete here = record {
    account = λ ns nf rf. refl;
    sentinel = ground arith;
    done = ground arith;
    end = ground arith;
  }
  Reach-IsComplete (next r st) = Step-IsComplete st (Reach-IsComplete r)

  -- In every interleaving of the tasks: when the pipeline has returned and no upload has raised, the
  -- reader has ended, its process without a failure, the writer has sealed every chunk without an
  -- exception, and the uploads that returned are all of them, in order.
  pub returned_complete :
      {s : Tasks}
      → Reach compress encrypt sha256 dek snapshot_id (start 0 gen0 all) s
      → s.main ≡ returned
      → s.shutdown ≡ false
      → (s.reader ≡ read_done)
        × (compress_encrypt_upload compress encrypt sha256 dek snapshot_id 0 gen0 all
            ≡ (ok tt, s.uploaded))
  returned_complete {s} r m ns =
      let i = Reach-IsComplete r in
      let ended = i.end ns m in
      let w = is_write_done-eq s.writer (ground arith) in
      let t = i.done (ground arith) in
      (
        is_read_done-eq s.reader (ground arith),
        sym (rw (w, t) at (i.account ns (ground arith) (ground arith)))
            ∙ ap (λ us. (ok tt, us)) (append-nil s.uploaded),
      )
