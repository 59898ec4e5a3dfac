-- ===== src/Journal/Credentials.antt =====
-- What `Db::finish_operation` (crates/barista-node-agent/src/db.rs) leaves of an instance's secrets.
use barista_sh.Base.{List, some, ◌≡◌, refl, arith}
use barista_sh.Base.Int.{ℤ}
use barista_sh.Journal.Table.{find, update, find-update, find-passes}
use barista_sh.Journal.Rows.{InstanceRow, Journal, Finalized, of_instance}
use barista_sh.Journal.Operations.{Finish, finished_instance, finish_operation}

-- The columns that a finalize may not touch.
pub record Untouched (r s : InstanceRow) : Type 0 where
  pub guest_token : s.guest_token ≡ r.guest_token
  pub identity : s.identity ≡ r.identity
  pub run_epoch_ms : s.run_epoch_ms ≡ r.run_epoch_ms
  pub execution_epoch : s.execution_epoch ≡ r.execution_epoch
  pub lineage : s.lineage ≡ r.lineage
  pub wake_at_ms : s.wake_at_ms ≡ r.wake_at_ms

finished-find :
    (q : Finish) (now : ℤ) (rows : List InstanceRow) (r : InstanceRow)
    → find (of_instance q.instance_id) rows ≡ some r
    → find
        (of_instance q.instance_id)
        (update (of_instance q.instance_id) (finished_instance q now) rows)
      ≡ some (finished_instance q now r)
finished-find q now rows r e = ground (
  arith,
  e,
  find-update (of_instance q.instance_id) (of_instance q.instance_id) (finished_instance q now) rows
      (λ r. refl),
  find-passes (of_instance q.instance_id) rows r e,
)

-- A finalize that commits moves the instance to its state and leaves the credentials, the run
-- epoch, the execution epoch, the lineage and the wake alarm as they were, whatever that state is:
-- a destroy that finalizes keeps the guest token and the TLS keys, and a start or resume that
-- finalizes stamps no run epoch.
pub finish_keeps_credentials :
    (q : Finish) (now : ℤ) (j : Journal) (r : InstanceRow) (f : Finalized)
    → find (of_instance q.instance_id) j.instances ≡ some r
    → (finish_operation q now j).0 ≡ some f
    → (s : InstanceRow) × (find (of_instance q.instance_id) (finish_operation q now j).1.instances
        ≡ some s)
      × (s.state ≡ q.state)
      × Untouched r s
unfolding finish_operation
finish_keeps_credentials q now j r f e done = (
  finished_instance q now r,
  written,
  refl,
  record {
    guest_token = refl;
    identity = refl;
    run_epoch_ms = refl;
    execution_epoch = refl;
    lineage = refl;
    wake_at_ms = refl;
  },
)
  where
    written :
        find (of_instance q.instance_id) (finish_operation q now j).1.instances
        ≡ some (finished_instance q now r)
    written = ground (arith, done, finished-find q now j.instances r e)
