-- ===== src/Fsm/Progress.antt =====
-- Where the transitions of src/boveda/fsm.py lead.
use boveda_pyme.Prelude.{
  ℕ, ◌≤◌, ◌≡◌, sym, ap, true, false, not, List, [], ◌∷◌, arith, All, ◌>>=◌, raise_if-eq-ok,
  ok-injective, >>=-eq-ok, Result, ok,
}
use boveda_pyme.Catalog.{
  pending, running, completed, expired, purging, purged, purge_failed, failed, cleanup, other,
  Snapshot, Estado, is_running,
}
use boveda_pyme.Fsm.{
  FsmError, is_valid_transition, transition_snapshot, cleanup_in_progress_snapshots,
}

-- How far a snapshot is in its life.
abbrev pub stage : Estado → ℕ
stage pending = 0
stage running = 1
stage completed = 2
stage failed = 2
stage expired = 3
stage cleanup = 3
stage purging = 4
stage purge_failed = 4
stage purged = 5
stage (other _) = 6

-- A sequence of transitions, until one is refused.
unfoldable pub transitions : List Estado → Snapshot → Result FsmError Snapshot
transitions [] s = ok s
transitions (e ∷ es) s = transition_snapshot s e >>= transitions es

valid-stage : (a b : Estado) → is_valid_transition a b ≡ true → stage a ≤ stage b
unfolding is_valid_transition
valid-stage a b h = ground arith

-- Transitions that are all allowed never lead back to an earlier stage of a snapshot's life.
pub transitions-stage :
    (es : List Estado) (s : Snapshot) {s' : Snapshot}
    → transitions es s ≡ ok s'
    → stage s.estado ≤ stage s'.estado
unfolding transitions transition_snapshot
transitions-stage [] s h = let same = ok-injective h in rw (sym same) (omega arith)
transitions-stage (e ∷ es) s h =
    let (s1, first, rest) = >>=-eq-ok (transition_snapshot s e) (transitions es) h in
    let (allowed, moved) = raise_if-eq-ok (not (is_valid_transition s.estado e)) _ _ first in
    let here = valid-stage s.estado e (ground arith) in
    let same : e ≡ s1.estado = ap (λ x. x.estado) (ok-injective moved) in
    let later = transitions-stage es s1 rest in
    let middle : stage e ≡ stage s1.estado = ap stage same in omega (arith, here, middle, later)

-- The clean-up leaves no snapshot RUNNING.
pub cleanup_in_progress_snapshots-All :
    (ss : List Snapshot) → All (λ s. is_running s.estado ≡ false) (cleanup_in_progress_snapshots ss)
unfolding cleanup_in_progress_snapshots
cleanup_in_progress_snapshots-All [] = tt
cleanup_in_progress_snapshots-All (s ∷ ss) = (ground arith, cleanup_in_progress_snapshots-All ss)
