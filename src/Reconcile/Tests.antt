-- ===== src/Reconcile/Tests.antt =====
-- Concrete runs of crates/barista-node-agent/src/reconcile.rs and of `recover` of ops.rs.
use Prim.Native.String.{String}
use barista_sh.Base.{ℕ, true, false, none, some, List, [], ◌∷◌, ◌≡◌, ◌⊎◌, refl}
use barista_sh.Base.Int.{pos}
use barista_sh.Contract.{InstanceState}
use barista_sh.Journal.Rows.{InstanceRow, no_identity, no_lineage}
use barista_sh.Journal.Steps.{empty_journal}
use barista_sh.Journal.Snapshots.{Db}
use barista_sh.Node.Runtime.{Sandbox, RuntimeError, ok, err, Call, Reply}
use barista_sh.Node.Submit.{Config}
use barista_sh.Node.Log.{Event, Logs}
use barista_sh.Node.Sequential.{run, run-Runs}
use barista_sh.Node.Sample.{bare_spec, fake, answers, made}
use barista_sh.Reconcile.Vanished.{Counts, reconcile_vanished_sandboxes}
use barista_sh.Reconcile.Vanished.Counting.{seen, begins, goes_on}
use barista_sh.Reconcile.Vanished.Debounce.{Debounced, vanished_three_times}
use barista_sh.Reconcile.Recover.{recover}
use barista_sh.Reconcile.Recover.Settling.{opened, Recovered, recover_settles}
use barista_sh.Reconcile.Deadlines.{Draws, fire_due_wake}
use barista_sh.Reconcile.Deadlines.Once.{wake_fires_once}
use barista_sh.Reconcile.Sweep.{reap_sandbox, reap_each, sweep_group}
use barista_sh.Reconcile.Sweep.Survivors.{Spared, sweep_spares_live}

abbrev asleep : InstanceRow
asleep = record {
  instance_id = "i-1";
  spec = bare_spec;
  state = InstanceState.paused;
  ready = false;
  runtime = "fake";
  created_at_ms = pos 1;
  updated_at_ms = pos 2;
  ttl_deadline_ms = none;
  latest_snapshot_id = "";
  guest_token = "t-1";
  identity = no_identity;
  wake_at_ms = some (pos 3);
  stop_requested = none;
  stop_exit_code = none;
  stop_detail = none;
  run_epoch_ms = none;
  lineage = no_lineage;
  execution_epoch = 0;
}

-- a node whose one instance is RUNNING, and whose backend lists no sandbox
abbrev lonely : Db
lonely = record {
  journal = record empty_journal {
    instances = record asleep { state = InstanceState.running } ∷ [];
  };
  snapshots = [];
  capsules = [];
}

abbrev watching : Config
watching = record fake { enumerates_sandboxes = true }

abbrev none_listed : (c : Call) → Reply c
none_listed Call.list_sandboxes = ok []
none_listed c = answers c

abbrev after_pass : Counts → Counts
after_pass counts =
    (run none_listed lonely (reconcile_vanished_sandboxes watching (pos 9) counts)).0

vanished_three_times_example :
    Debounced
      (seen watching (ok []) lonely)
      (seen watching (ok []) lonely ∷ seen watching (ok []) lonely ∷ [])
      lonely
      (run none_listed lonely
        (reconcile_vanished_sandboxes watching (pos 9) (after_pass (after_pass [])))).1
vanished_three_times_example =
    vanished_three_times (seen watching (ok []) lonely ∷ seen watching (ok []) lonely ∷ [])
      (after_pass (after_pass [])) watching (pos 9) none_listed lonely
      (goes_on watching (pos 9) none_listed lonely (refl, tt)
        (goes_on watching (pos 9) none_listed lonely (refl, tt) begins))
      (refl, tt)

-- the node dies while it creates its instance
recover_settles_example :
    Recovered
      (run answers (opened made) (recover "restarted" (pos 9))).0
      (run answers (opened made) (recover "restarted" (pos 9))).1
recover_settles_example =
    recover_settles "restarted" (pos 9) made
      (run answers (opened made) (recover "restarted" (pos 9))).0
      (run answers (opened made) (recover "restarted" (pos 9))).1
      (run-Runs answers (opened made) (recover "restarted" (pos 9)))

abbrev sleeping : Db
sleeping = record {
  journal = record empty_journal { instances = asleep ∷ [] };
  snapshots = [];
  capsules = [];
}

abbrev tick : String → ℕ → Draws
tick op_id n = record {
  op_id = op_id;
  fresh_token = "";
  seen_at = pos n;
  created = pos n;
  claim_now = pos n;
  now = pos n;
}

abbrev woken : Db
woken = (run answers sleeping (fire_due_wake fake (tick "op-1" 4) asleep)).1

wake_fires_once_example :
    (woken ≡ sleeping) ⊎ ((run answers woken (fire_due_wake fake (tick "op-2" 5) asleep)).1 ≡ woken)
wake_fires_once_example =
    wake_fires_once fake (tick "op-1" 4) (tick "op-2" 5) asleep sleeping woken
      (run answers woken (fire_due_wake fake (tick "op-2" 5) asleep)).1
      (run-Runs answers sleeping (fire_due_wake fake (tick "op-1" 4) asleep))
      (run-Runs answers woken (fire_due_wake fake (tick "op-2" 5) asleep))

abbrev two_sandboxes : List Sandbox
two_sandboxes =
    record { substrate_id = "a"; instance_id = "i-1"; running = true }
    ∷ record { substrate_id = "b"; instance_id = "i-1"; running = false }
    ∷ []

-- the log of the sweep, whose one call fails
swept :
    Logs
      (sweep_group ("i-1" ∷ []) (some []) "i-1" two_sandboxes)
      (Event.called (Call.remove_sandbox "b") ∷ [])
unfolding sweep_group reap_each reap_sandbox
swept = (err (RuntimeError.other "busy"), [], refl, refl)

sweep_spares_live_example :
    Spared "i-1" (some []) two_sandboxes (Event.called (Call.remove_sandbox "b") ∷ [])
sweep_spares_live_example =
    sweep_spares_live ("i-1" ∷ []) (some []) "i-1" two_sandboxes
      (Event.called (Call.remove_sandbox "b") ∷ []) refl swept
