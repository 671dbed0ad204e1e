-- ===== src/Cleanup/Aborted.antt =====
-- What the clean-up after a crash has done when it ends.
use boveda_pyme.Prelude.{
  String, ◌≡◌, ◌≢◌, refl, ap, ◌∙◌, sym, subst, none, some, List, [], ◌∷◌, ◌++◌, arith, select, All,
  Result, ok, err, Option-cases, inl, inr,
}
use boveda_pyme.Catalog.{Snapshot, is_running}
use boveda_pyme.Fsm.{cleanup_in_progress_snapshots}
use boveda_pyme.Cleanup.{
  Abort, AbortCall, aborted, client_error, raises, CleanupError, Calls, abort_multipart_upload,
  abort_uploads, cleanup_after_crash, settle_cleanup, data_key, upload_of, after_call,
}

-- The calls that the snapshots ask for.
abbrev pub calls_of : List Snapshot → Calls
calls_of [] = []
calls_of (s ∷ ss) =
    let rest = calls_of ss in elim (upload_of s) [ none ↦ rest | some u ↦ (data_key s, u) ∷ rest ]

abbrev pub stale : List Snapshot → List Snapshot
stale ss = select (λ s. is_running s.estado) ss

-- How the loop ends: it has made the calls up to the first that raised, if one did.
record HasAborted (abort : Abort) (ss : List Snapshot)
    (done : Result CleanupError (Unit {0}) × Calls) : Type 0 where
  made : (rest : Calls) × (done.1 ++ rest ≡ calls_of ss)
  all_made : done.0 ≡ ok tt → done.1 ≡ calls_of ss
  calm : All (λ c. abort c.0 c.1 ≢ raises) (calls_of ss) → done.0 ≡ ok tt

abbrev NeverRaises : Abort → Calls → Type 0
NeverRaises abort calls = All (λ c. abort c.0 c.1 ≢ raises) calls

calls_of-some :
    (s : Snapshot) (u : String) (ss : List Snapshot)
    → upload_of s ≡ some u
    → calls_of (s ∷ ss) ≡ (data_key s, u) ∷ calls_of ss
calls_of-some s u ss e = rw (calls_of, e) refl

calls_of-none :
    (s : Snapshot) (ss : List Snapshot) → upload_of s ≡ none → calls_of (s ∷ ss) ≡ calls_of ss
calls_of-none s ss e = rw (calls_of, e) refl

-- A call that raises nothing that is not caught.
go_on :
    (abort : Abort) (s : Snapshot) (u : String) (ss : List Snapshot)
    (done : Result CleanupError (Unit {0}) × Calls)
    → calls_of (s ∷ ss) ≡ (data_key s, u) ∷ calls_of ss
    → HasAborted abort ss done
    → HasAborted abort (s ∷ ss) (done.0, (data_key s, u) ∷ done.1)
go_on abort s u ss done c h = record {
  made = (h.made.0, ap (◌∷◌ (data_key s, u)) h.made.1 ∙ sym c);
  all_made = λ k. ap (◌∷◌ (data_key s, u)) (h.all_made k) ∙ sym c;
  calm = λ n. h.calm (subst (NeverRaises abort) c n).1;
}

call-HasAborted :
    (abort : Abort) (s : Snapshot) (u : String) (ss : List Snapshot)
    (done : Result CleanupError (Unit {0}) × Calls) (a : AbortCall)
    → abort (data_key s) u ≡ a
    → calls_of (s ∷ ss) ≡ (data_key s, u) ∷ calls_of ss
    → HasAborted abort ss done
    → HasAborted abort (s ∷ ss) (after_call (data_key s, u) (abort_multipart_upload a) done)
unfolding abort_multipart_upload
call-HasAborted abort s u ss (r, calls) aborted e c h = go_on abort s u ss (r, calls) c h
call-HasAborted abort s u ss (r, calls) client_error e c h = go_on abort s u ss (r, calls) c h
call-HasAborted abort s u ss (r, calls) raises e c h = record {
  made = (calls_of ss, sym c);
  all_made = λ k. absurd (cc);
  calm = λ n. absurd ((subst (NeverRaises abort) c n).0 e);
}

abort_uploads-HasAborted :
    (abort : Abort) (ss : List Snapshot) → HasAborted abort ss (abort_uploads abort ss)
unfolding abort_uploads
abort_uploads-HasAborted abort [] = record {
  made = ([], refl);
  all_made = λ k. refl;
  calm = λ n. refl;
}
abort_uploads-HasAborted abort (s ∷ ss) =
    let rest = abort_uploads-HasAborted abort ss in
    elim (Option-cases (upload_of s)) [
      | inl nothing ↦
          let c = calls_of-none s ss nothing in
          rw (nothing, abort_uploads)
            record {
              made = (rest.made.0, rest.made.1 ∙ sym c);
              all_made = λ k. rest.all_made k ∙ sym c;
              calm = λ n. rest.calm (subst (NeverRaises abort) c n);
            }
      | inr (u, named) ↦
          rw (named, abort_uploads)
            (call-HasAborted abort s u ss (abort_uploads abort ss) (abort (data_key s) u) refl
              (calls_of-some s u ss named) rest)
    ]

-- What a clean-up has done.
pub record IsCleaned (abort : Abort) (ss : List Snapshot)
    (done : Result CleanupError (Unit {0}) × List Snapshot × Calls) : Type 0 where
  pub made : (rest : Calls) × (done.2 ++ rest ≡ calls_of (stale ss))
  pub cleaned :
      done.0 ≡ ok tt
      → (done.1 ≡ cleanup_in_progress_snapshots ss)
        × (stale done.1 ≡ [])
        × (done.2 ≡ calls_of (stale ss))
  pub uncommitted : done.0 ≢ ok tt → done.1 ≡ ss
  pub calm : NeverRaises abort (calls_of (stale ss)) → done.0 ≡ ok tt

none_stale : (ss : List Snapshot) → stale (cleanup_in_progress_snapshots ss) ≡ []
unfolding cleanup_in_progress_snapshots
none_stale [] = refl
none_stale (s ∷ ss) = ground (arith, none_stale ss)

settle_cleanup-IsCleaned :
    (abort : Abort) (ss : List Snapshot) (done : Result CleanupError (Unit {0}) × Calls)
    → HasAborted abort (stale ss) done
    → IsCleaned abort ss (settle_cleanup ss done)
settle_cleanup-IsCleaned abort ss (ok _, calls) h = record {
  made = h.made;
  cleaned = λ k. (refl, none_stale ss, h.all_made refl);
  uncommitted = λ n. absurd (n refl);
  calm = λ n. refl;
}
settle_cleanup-IsCleaned abort ss (err e, calls) h = record {
  made = h.made;
  cleaned = λ k. absurd (cc);
  uncommitted = λ n. refl;
  calm = λ n. absurd (let k = h.calm n in cc);
}

-- The clean-up makes the calls for the uploads that the RUNNING snapshots name, in order, up to the
-- first that raises something else than a ClientError. If none does it returns, and then every call
-- was made and no snapshot is RUNNING, the others being as they were; if it raises, no snapshot has
-- changed.
pub cleanup_after_crash-IsCleaned :
    (abort : Abort) (ss : List Snapshot) → IsCleaned abort ss (cleanup_after_crash abort ss)
unfolding cleanup_after_crash
cleanup_after_crash-IsCleaned abort ss =
    settle_cleanup-IsCleaned abort ss (abort_uploads abort (stale ss))
      (abort_uploads-HasAborted abort (stale ss))
