-- ===== src/Node/Sample.antt =====
-- A node with one submission, for concrete runs of crates/barista-node-agent/src/ops.rs.
use barista_sh.Base.{true, false, none, []}
use barista_sh.Base.Int.{pos}
use barista_sh.Contract.Spec.{InstanceSpec, SnapshotKind}
use barista_sh.Journal.Rows.{ForkMode}
use barista_sh.Journal.Snapshots.{Db}
use barista_sh.Policy.Plan.{OpKind}
use barista_sh.Node.Runtime.{Call, Reply, ok}
use barista_sh.Node.Payload.{OpPayload}
use barista_sh.Node.Sequential.{run}
use barista_sh.Node.Submit.{Config, Submitting, submit_claiming}
use barista_sh.Node.System.{empty_db}

abbrev pub bare_spec : InstanceSpec
bare_spec = record {
  instance_id = "i-1";
  template = none;
  resources = none;
  process = none;
  hooks = none;
  ttl_seconds = 0;
  ttl_action = pos 0;
  labels = [];
  egress = none;
  idle_action = none;
}

abbrev pub fake : Config
fake = record {
  runtime_name = "fake";
  runtime_version = "1";
  cpu_class = "c1";
  capabilities = record {
    memory_snapshot = true;
    disk_snapshot = true;
    live_checkpoint = false;
    guest_agent = true;
    hardware_isolation = false;
    lazy_restore = false;
    cow_fork = false;
    egress_control = false;
    full_copy_fork = true;
    object_store_snapshots = false;
    capsule_export = false;
    capsule_import = false;
    safe_grant_rebind = false;
  };
  channel_is_network_reachable = false;
  enumerates_sandboxes = true;
  template_hash = λ spec. "t";
  same_spec = λ a b. true;
  mint = λ id. none;
}

-- a backend on which every call succeeds
abbrev pub answers : (c : Call) → Reply c
answers (Call.create _ _) = ok tt
answers (Call.start _ _ _) = ok tt
answers (Call.stop _ _) = ok tt
answers (Call.stop_status _) = ok none
answers (Call.pause _) =
    ok (record { snapshot_id = "s-1"; kind = SnapshotKind.memory_and_disk; size_bytes = 1 })
answers (Call.resume _ _) = ok tt
answers (Call.create_snapshot _ _) =
    ok (record { snapshot_id = "s-1"; kind = SnapshotKind.memory_and_disk; size_bytes = 1 })
answers (Call.delete_snapshot _) = ok tt
answers (Call.destroy _) = ok tt
answers (Call.fork _ _ _ _ _) = ok (record { mode = ForkMode.unspecified; froze_source = false })
answers (Call.restore_from_objects _ _ _) = ok tt
answers (Call.remove_orphan _) = ok tt
answers Call.list_labeled = ok []
answers Call.list_sandboxes = ok []
answers (Call.remove_sandbox _) = ok tt
answers Call.list_credentials = ok []
answers (Call.remove_credential _) = ok tt
answers (Call.probe _) = none
answers (Call.connect _) = true
answers (Call.run_hook _ _) = none
answers (Call.run_restore_duties _ _) = none
answers (Call.health _) = true
answers Call.entropy = true
answers (Call.fetch _) = ok none

abbrev pub creating : Submitting
creating = record {
  kind = OpKind.create;
  instance_id = "i-1";
  idempotency_key = "k-1";
  payload = OpPayload.create bare_spec;
  claim = none;
  announce = [];
  op_id = "op-1";
  fresh_token = "t-1";
  created = pos 5;
  claim_now = pos 6;
  now = pos 6;
}

abbrev pub made : Db
made = (run answers empty_db (submit_claiming fake creating)).1
