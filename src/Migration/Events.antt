-- ===== src/Migration/Events.antt =====
-- A migrator leaves its tracker complete, so that Build returns an event for every operation.
use go_server_sdk.Prelude.{
  string_eq, Bool, true, false, Option, none, ◌≡◌, ◌≢◌, refl, ◌∙◌, ap, insert, Bool-cases, inl, inr,
}
use go_server_sdk.Migration.Tracker.{
  Stage, off, dual_write, shadow, live, ramp_down, complete, other_stage, old, new, origin_eq,
  TrackerModel, track_invoked, build, built, MigrationOpEvent,
}
use go_server_sdk.Migration.Migrator.{
  MigratorImpl, MigrationExecutor, Client, Run, ExecutionOrder, exec, exec_both, first_of_both,
  read_from_both, write_to_both, read_stage, write_stage, old_executor, new_executor, compared,
  on_tracker,
}
use go_server_sdk.Migration.Results.{authority}
use go_server_sdk.Migration.Building.{Complete, is_named, build_iff}
use go_server_sdk.Migration.Measured.{
  Fresh, Measured, Fresh-Measured, every-Measured, SameInvoked, exec-Measured, exec-SameInvoked,
  single-Complete, invoked-Measured, pair-Complete, compared-Measured, compared-invoked,
}

module _ (m : TrackerModel) where
  module _ {P V W : Type 0} (client : Client m W) where
    single-read :
        (e : MigrationExecutor P V W) (r : Run m W)
        → Fresh m r.tracker
        → Complete m (track_invoked m e.origin (exec m client e r).1.tracker)
    single-read e r f =
        let same = exec-SameInvoked m client e r in
        single-Complete m e.origin (exec m client e r).1.tracker
          (exec-Measured m client e r (Fresh-Measured m f)) (same.invoked ∙ f.none_invoked)
          (same.check ∙ f.no_check)

    both-write :
        (a b : MigrationExecutor P V W) (r : Run m W)
        → a.origin ≢ b.origin
        → is_named a.origin ≡ true
        → is_named b.origin ≡ true
        → Fresh m r.tracker
        → Complete m (write_to_both m client a b r).1.tracker
    unfolding write_to_both track_invoked
    both-write a b r d p q f =
        let same = exec-SameInvoked m client a r in
        let second = on_tracker (track_invoked m a.origin) (exec m client a r).1 in
        elim (Bool-cases (exec m client a r).0.success) [
          | inl done ↦
              rw (done, write_to_both)
                (pair-Complete m a.origin b.origin (exec m client b second).1.tracker d p q
                  (exec-Measured m client b second
                    (invoked-Measured m a.origin (exec-Measured m client a r (Fresh-Measured m f))))
                  (SameInvoked.invoked (exec-SameInvoked m client b second)
                    ∙ ap (λ t. insert a.origin tt t) (same.invoked ∙ f.none_invoked)))
          | inr failed ↦ rw (failed, write_to_both) (single-read a r f)
        ]

    exec_both-Measured :
        (a b : MigrationExecutor P V W) (first : Bool) (r : Run m W)
        → Measured m false false r.tracker
        → Measured m true true (exec_both m client a b first r).1.tracker
          × ((exec_both m client a b first r).1.tracker.invoked ≡ r.tracker.invoked)
    unfolding exec_both
    exec_both-Measured a b true r h =
        let r1 = (exec m client a r).1 in
        (
          every-Measured m (exec-Measured m client b r1 (exec-Measured m client a r h)),
          SameInvoked.invoked (exec-SameInvoked m client b r1)
              ∙ SameInvoked.invoked (exec-SameInvoked m client a r),
        )
    exec_both-Measured a b false r h =
        let r1 = (exec m client b r).1 in
        (
          every-Measured m (exec-Measured m client a r1 (exec-Measured m client b r h)),
          SameInvoked.invoked (exec-SameInvoked m client a r1)
              ∙ SameInvoked.invoked (exec-SameInvoked m client b r),
        )

    both-read :
        (a b : MigrationExecutor P V W) (c : Option (Option V → Option V → Bool))
        (order : ExecutionOrder) (r : Run m W)
        → Fresh m r.tracker
        → Complete m (
            track_invoked m new
              (track_invoked m old (read_from_both m client a b c order r).1.tracker))
    unfolding read_from_both track_invoked
    both-read a b c order r f =
        let (first, w) = first_of_both m client order r.world in
        let start = record r { world = w } in
        let ((x, y), ran) = exec_both m client a b first start in
        let (h, i) = exec_both-Measured a b first start (Fresh-Measured m f) in
        pair-Complete m old new (track_invoked m old (compared m c x y ran.tracker)) (λ e. cc) refl
          refl (invoked-Measured m old (compared-Measured m c x y ran.tracker h))
          (ap (λ t. insert old tt t) (compared-invoked m c x y ran.tracker ∙ i ∙ f.none_invoked))

    -- After a read at any known stage, with a fresh tracker, the tracker passes every check of Build, which returns an event.
    pub read_stage-builds :
        (g : MigratorImpl P V W) (payload : P) (stage : Stage) (r : Run m W)
        → authority stage ≢ none
        → Fresh m r.tracker
        → (event : MigrationOpEvent m) × (build m (read_stage m client g payload stage r).1.tracker
            ≡ built event)
    unfolding read_stage
    read_stage-builds g payload stage r known f = (build_iff m _).1 (complete_read stage known)
      where
        olds : MigrationExecutor P V W
        olds = old_executor g g.read_config payload

        news : MigrationExecutor P V W
        news = new_executor g g.read_config payload

        complete_read :
            (stage : Stage)
            → authority stage ≢ none
            → Complete m (read_stage m client g payload stage r).1.tracker
        complete_read off k = single-read olds r f
        complete_read dual_write k = single-read olds r f
        complete_read shadow k =
            both-read olds news g.read_config.compare g.read_execution_order r f
        complete_read live k = both-read news olds g.read_config.compare g.read_execution_order r f
        complete_read ramp_down k = single-read news r f
        complete_read complete k = single-read news r f
        complete_read (other_stage _) k = absurd (k refl)

    -- After a write at any known stage, with a fresh tracker, whether the authoritative write
    -- succeeds or fails, the tracker passes every check of Build, which returns an event.
    pub write_stage-builds :
        (g : MigratorImpl P V W) (payload : P) (stage : Stage) (r : Run m W)
        → authority stage ≢ none
        → Fresh m r.tracker
        → (event : MigrationOpEvent m) × (build m (write_stage m client g payload stage r).1.tracker
            ≡ built event)
    unfolding write_stage
    write_stage-builds g payload stage r known f = (build_iff m _).1 (complete_write stage known)
      where
        olds : MigrationExecutor P V W
        olds = old_executor g g.write_config payload

        news : MigrationExecutor P V W
        news = new_executor g g.write_config payload

        complete_write :
            (stage : Stage)
            → authority stage ≢ none
            → Complete m (write_stage m client g payload stage r).1.tracker
        complete_write off k = single-read olds r f
        complete_write dual_write k = both-write olds news r (λ e. cc) refl refl f
        complete_write shadow k = both-write olds news r (λ e. cc) refl refl f
        complete_write live k = both-write news olds r (λ e. cc) refl refl f
        complete_write ramp_down k = both-write news olds r (λ e. cc) refl refl f
        complete_write complete k = single-read news r f
        complete_write (other_stage _) k = absurd (k refl)
