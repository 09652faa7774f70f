-- ===== src/Pipeline/Publish/Shutdown.antt =====
-- How the snapshot stage ends the storage stage.
use kronical.Prelude.{
  ◌≡◌, refl, ◌∙◌, Bool, true, false, List, [], ◌∷◌, ◌++◌, arith, All, All-append, if_elim,
  Bool-cases, inl, inr,
}
use mathlib.Core.Path.{subst}
use kronical.Pipeline.{StorageCommand, SnapshotUpdate, SnapshotMessage}
use mathlib.Core.List.{append_assoc, append-nil}
use kronical.Pipeline.Publish.{
  SnapshotStage, StageConfig, AppTree, Moment, apply_update, update_records, publish_snapshot,
  maybe_finalize, on_message, receive, run_stage,
}

abbrev pub is_transition : StorageCommand → Bool
is_transition (StorageCommand.transition _) = true
is_transition _ = false

-- Transitions, then one shutdown.
abbrev pub EndsOnce : List StorageCommand → Type 0
EndsOnce sent =
    (before : List StorageCommand) × (All (λ c. is_transition c ≡ true) before
      × (sent ≡ before ++ (StorageCommand.shutdown ∷ [])))

-- What one message sends while the stage runs: transitions; and a shutdown exactly when it ends.
abbrev Sends : List StorageCommand → Bool → Type 0
Sends sent true = EndsOnce sent
Sends sent false = All (λ c. is_transition c ≡ true) sent

apply_update-Sends :
    (s : SnapshotStage) (u : SnapshotUpdate)
    → All (λ c. is_transition c ≡ true) (apply_update s u).1
      × ((apply_update s u).0.storage_shutdown_sent ≡ s.storage_shutdown_sent)
unfolding apply_update
apply_update-Sends s u = ground arith

module _ (cfg : StageConfig) (app_tree : AppTree) where
  maybe_finalize-Sends :
      (s : SnapshotStage) (requested complete : Bool) (at : Moment)
      → s.storage_shutdown_sent ≡ false
      → let ((s', sent), ended) = maybe_finalize cfg app_tree s requested complete at in
        Sends sent ended × (s'.storage_shutdown_sent ≡ ended)
  unfolding maybe_finalize
  maybe_finalize-Sends s true true at h = rw h (([], (tt, refl)), refl)
  maybe_finalize-Sends s true false at h = (tt, h)
  maybe_finalize-Sends s false complete at h = (tt, h)

  on_message-Sends :
      (s : SnapshotStage) (m : SnapshotMessage) (at : Moment)
      → s.storage_shutdown_sent ≡ false
      → let ((s', sent), ended) = on_message cfg app_tree s m at in
        Sends sent ended × (s'.storage_shutdown_sent ≡ ended)
  unfolding on_message update_records publish_snapshot
  on_message-Sends s (SnapshotMessage.update u) at h =
      let (a, same) = apply_update-Sends s u in (a, same ∙ h)
  on_message-Sends s (SnapshotMessage.activity r) at h = (tt, h)
  on_message-Sends s SnapshotMessage.publish at h = (tt, h)
  on_message-Sends s SnapshotMessage.hints_complete at h =
      maybe_finalize-Sends (record s { hints_complete = true }) s.shutdown_requested true at h
  on_message-Sends s SnapshotMessage.shutdown at h =
      maybe_finalize-Sends (record s { shutdown_requested = true }) true s.hints_complete at h

  Sends-then :
      (xs ys : List StorageCommand) (b : Bool)
      → All (λ c. is_transition c ≡ true) xs
      → Sends ys b
      → Sends (xs ++ ys) b
  Sends-then xs ys true a (before, (h, same)) =
      (xs ++ before, (All-append _ xs before a h, rw same (simp append_assoc)))
  Sends-then xs ys false a h = All-append _ xs ys a h

  receive-Sends :
      (s : SnapshotStage) (ms : List (SnapshotMessage × Moment))
      → s.storage_shutdown_sent ≡ false
      → let ((s', sent), over) = receive cfg app_tree s ms in
        Sends sent over × (s'.storage_shutdown_sent ≡ over)
  unfolding receive
  receive-Sends s [] h = (tt, h)
  receive-Sends s ((m, at) ∷ ms) h =
      let ((s', sent), ended) = on_message cfg app_tree s m at in
      let ((last, rest), over) = receive cfg app_tree s' ms in
      let now = on_message-Sends s m at h in
      if_elim {A = (SnapshotStage × List StorageCommand) × Bool}
        (λ r. Sends r.0.1 r.1 × (r.0.0.storage_shutdown_sent ≡ r.1)) ended ((s', sent), true)
        ((last, sent ++ rest), over) (λ stop. rw stop at now)
        (λ goes_on.
          let (a, unsent) = rw goes_on at now in
          let (b, same) = receive-Sends s' ms unsent in (Sends-then sent rest over a b, same))

  closed :
      (last : SnapshotStage) (at : Moment)
      → last.storage_shutdown_sent ≡ true
      → (maybe_finalize cfg app_tree last true true at).0.1 ≡ []
  unfolding maybe_finalize
  closed last at e = rw e refl

  closing :
      (last : SnapshotStage) (at : Moment)
      → last.storage_shutdown_sent ≡ false
      → (maybe_finalize cfg app_tree last true true at).0.1 ≡ StorageCommand.shutdown ∷ []
  unfolding maybe_finalize
  closing last at e = rw e refl

  -- Whatever a stage that has not yet shut storage down receives, in whatever order, and also when
  -- its channel closes early: it sends storage transitions, then one shutdown, and nothing after
  -- it.
  pub run_stage-EndsOnce :
      (s : SnapshotStage) (ms : List (SnapshotMessage × Moment)) (at : Moment)
      → s.storage_shutdown_sent ≡ false
      → EndsOnce (run_stage cfg app_tree s ms at).1
  unfolding run_stage
  run_stage-EndsOnce s ms at h =
      let ((last, sent), over) = receive cfg app_tree s ms in
      let (a, same) = receive-Sends s ms h in
      elim (Bool-cases over) [
        | inl ended ↦
            let once : Sends sent true = subst (Sends sent) ended a in
            rw (closed last at (same ∙ ended)) (rw (append-nil sent) once)
        | inr open' ↦
            let plain : Sends sent false = subst (Sends sent) open' a in
            rw (closing last at (same ∙ open')) (sent, (plain, refl))
      ]
