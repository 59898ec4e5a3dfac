-- ===== src/Node/Executor/Outcome.antt =====
-- What the verbs of `execute` (crates/barista-node-agent/src/ops.rs) end with, by the answers of the
-- runtime.
use Prim.Native.String.{String}
use mathlib.Core.Path.{subst}
use barista_sh.Base.{
  ℕ, Bool, true, false, Bool-cases, Option, none, some, List, [], if◌then◌else◌, ◌≡◌, inl, inr,
  refl, sym, arith,
}
use barista_sh.Contract.{ErrorReason}
use barista_sh.Contract.Spec.{InstanceSpec, SnapshotKind, HookOutcome}
use barista_sh.Journal.Table.{find}
use barista_sh.Journal.Rows.{InstanceRow, of_instance}
use barista_sh.Journal.Operations.{Work, succeeded, failed, set_op_step, set_op_froze_workload}
use barista_sh.Journal.Snapshots.{Db}
use barista_sh.Policy.Restore.{Restore}
use barista_sh.Node.Runtime.{
  Call, Reply, Answer, ok, err, SnapshotRef, ForkOutcome, GuestBootstrap, ObjectBytes,
}
use barista_sh.Node.Payload.{OpPayload, CapsuleRequest}
use barista_sh.Node.Process.{Proc, ◌>>=◌, ◌>>◌, bind, ask, update_db}
use barista_sh.Node.Submit.{resolve_restore}
use barista_sh.Node.Sequential.{run, run-bind}
use barista_sh.Node.Executor.Steps.{
  Execution, target, Done, step, on_journal, fails, to_work, with_row, fails_as,
}
use barista_sh.Node.Executor.Guest.{HookDone, run_pre_snapshot_hook}
use barista_sh.Node.Executor.Capture.{
  paused, run_pause, captured, record_snapshot, froze, run_create_snapshot, run_delete_snapshot,
}
use barista_sh.Node.Executor.Resume.{from_memory, cold_boot, run_resume}
use barista_sh.Node.Executor.Branch.{
  Loaded, forked, run_fork, load_capsule_objects, restored, run_restore_capsule,
}
use barista_sh.Node.Executor.Verbs.{
  run_create, run_start, run_stop, run_destroy, forget_snapshots, run_verb,
}

abbrev pub IsErr : {A : Type 0} → Answer A → Type 0
IsErr (ok a) = ⊥
IsErr (err e) = Unit

abbrev pub IsOk : {A : Type 0} → Answer A → Type 0
IsOk (ok a) = Unit
IsOk (err e) = ⊥

abbrev pub IsFailed : Work → Type 0
IsFailed succeeded = ⊥
IsFailed (failed why message) = Unit

module _ (answers : (c : Call) → Reply c) (id : String) where
  -- The runtime refuses the call, or both calls, that do a payload's work.
  abbrev pub Refused : OpPayload → Type 0
  Refused (OpPayload.create spec) = (b : GuestBootstrap) → IsErr (answers (Call.create spec b))
  Refused OpPayload.start =
      (s : InstanceSpec) (b : GuestBootstrap) → IsErr (answers (Call.start id s b))
  Refused (OpPayload.stop grace) = IsErr (answers (Call.stop id grace))
  Refused (OpPayload.pause memory) = IsErr (answers (Call.pause id))
  Refused (OpPayload.resume sid memory) =
      ((o : Option String) → IsErr (answers (Call.resume id o)))
      × ((s : InstanceSpec) (b : GuestBootstrap) → IsErr (answers (Call.start id s b)))
  Refused (OpPayload.create_snapshot name) = IsErr (answers (Call.create_snapshot id name))
  Refused (OpPayload.delete_snapshot sid) = IsErr (answers (Call.delete_snapshot sid))
  Refused (OpPayload.destroy keep) = IsErr (answers (Call.destroy id))
  Refused (OpPayload.fork f) =
      (s : InstanceSpec) (b : GuestBootstrap)
      → IsErr (answers (Call.fork f.source_instance_id f.source_snapshot_id s b f.require_cow))
  Refused (OpPayload.restore_capsule c) =
      (bs : List ObjectBytes) (s : InstanceSpec) (b : GuestBootstrap)
      → IsErr (answers (Call.restore_from_objects bs s b))

  -- The runtime does a payload's work, a pause with its memory. What a resume and a capsule's
  -- restore come to depends on more than the runtime.
  abbrev pub Served : OpPayload → Type 0
  Served (OpPayload.create spec) = (b : GuestBootstrap) → IsOk (answers (Call.create spec b))
  Served OpPayload.start =
      (s : InstanceSpec) (b : GuestBootstrap) → IsOk (answers (Call.start id s b))
  Served (OpPayload.stop grace) = IsOk (answers (Call.stop id grace))
  Served (OpPayload.pause memory) =
      (s : SnapshotRef) × (answers (Call.pause id) ≡ ok s) × (s.kind ≡ SnapshotKind.memory_and_disk)
  Served (OpPayload.resume sid memory) = ⊥
  Served (OpPayload.create_snapshot name) = IsOk (answers (Call.create_snapshot id name))
  Served (OpPayload.delete_snapshot sid) = IsOk (answers (Call.delete_snapshot sid))
  Served (OpPayload.destroy keep) = IsOk (answers (Call.destroy id))
  Served (OpPayload.fork f) =
      (s : InstanceSpec) (b : GuestBootstrap)
      → IsOk (answers (Call.fork f.source_instance_id f.source_snapshot_id s b f.require_cow))
  Served (OpPayload.restore_capsule c) = ⊥

to_work-failed : (a : Answer (Unit {0})) → IsErr a → IsFailed (to_work a)
to_work-failed (ok u) h = absurd h
to_work-failed (err e) h = tt

to_work-succeeded : (a : Answer (Unit {0})) → IsOk a → to_work a ≡ succeeded
to_work-succeeded (ok u) h = refl
to_work-succeeded (err e) h = absurd h

-- what a capture writes before its call
abbrev prepared : Execution → Proc (Unit {0})
prepared x =
    if froze x
    then bind (update_db (on_journal (set_op_froze_workload x.op.op_id)))
        (λ _. step x "runtime.create_snapshot.frozen")
    else step x "runtime.create_snapshot"

-- what a verb does after its first part
abbrev asked_capture : Execution → Option String → HookDone → Proc Done
asked_capture x name hook = do
  a ← ask (Call.create_snapshot (target x) name)
  elim a [ ok s ↦ captured x name s (hook.0) (hook.1) | err e ↦ fails_as e (hook.1) ]

abbrev asked_pause : Execution → Bool → HookDone → Proc Done
asked_pause x memory hook = do
  step x "runtime.pause"
  a ← ask (Call.pause (target x))
  elim a [ ok s ↦ paused x memory s (hook.0) (hook.1) | err e ↦ fails_as e (hook.1) ]

abbrev decided : Execution → Option ℕ → Option String → Option InstanceRow → Restore → Proc Done
decided x epoch sid row decision = elim decision [
  | Restore.from_memory ↦ from_memory x epoch sid row
  | Restore.cold_boot _ ↦ cold_boot x row
  | Restore.refuse reason ↦ fails reason "require_memory was set, so this was not cold-booted"
]

abbrev loaded_then : Execution → Loaded → Proc Done
loaded_then x objects = elim objects [
  | Loaded.not_loaded reason message ↦ fails reason message
  | Loaded.loaded bs ↦ restored x bs
]

-- the verb of a payload, as `run_verb` chooses it
abbrev verb : Execution → Option ℕ → OpPayload → Proc Done
verb x epoch payload = elim payload [
  | OpPayload.create spec ↦ run_create x spec
  | OpPayload.start ↦ run_start x
  | OpPayload.stop grace ↦ run_stop x grace
  | OpPayload.pause memory ↦ run_pause x memory
  | OpPayload.resume sid memory ↦ run_resume x epoch sid memory
  | OpPayload.create_snapshot name ↦ run_create_snapshot x name
  | OpPayload.delete_snapshot sid ↦ run_delete_snapshot x sid
  | OpPayload.destroy keep ↦ run_destroy x keep
  | OpPayload.fork f ↦ run_fork x f
  | OpPayload.restore_capsule c ↦ run_restore_capsule x c
]

module _ (answers : (c : Call) → Reply c) (x : Execution) where
  -- What a process ends with when it runs alone.
  abbrev result : Db → Proc Done → Work
  result d p = (run answers d p).0.0

  later :
      {A : Type 0} (P : Work → Type 0) (d : Db) (p : Proc A) (f : A → Proc Done)
      → ((a : A) (m : Db) → P (result m (f a)))
      → P (result d (bind p f))
  later P d p f h =
      subst (λ (r : Done × Db). P (r.0.0)) (sym (run-bind answers d p f))
        (h ((run answers d p).0) ((run answers d p).1))

  with_row-result :
      (P : Work → Type 0) (d : Db) (f : InstanceRow → Proc Done)
      → ((message : String) → P (failed ErrorReason.unspecified message))
      → ((r : InstanceRow) → P (result d (f r)))
      → P (result d (with_row x f))
  with_row-result P d f lost found = by_row (find (of_instance (target x)) d.journal.instances)
    where
      by_row :
          (o : Option InstanceRow)
          → P (
              result d (elim o as (λ _. Proc Done) [
                | none ↦ fails ErrorReason.unspecified "the instance vanished from the journal"
                | some r ↦ f r
              ]))
      by_row none = lost "the instance vanished from the journal"
      by_row (some r) = found r

  erred :
      {X : Type 0} (a : Answer X) (d : Db) (ds : List String) (f : X → Proc Done)
      → IsErr a
      → IsFailed (result d (elim a as (λ _. Proc Done) [ ok s ↦ f s | err e ↦ fails_as e ds ]))
  unfolding fails_as
  erred (ok s) d ds f h = absurd h
  erred (err e) d ds f h = tt

  went_well :
      {X : Type 0} (a : Answer X) (d : Db) (ds : List String) (f : X → Proc Done)
      → ((s : X) → result d (f s) ≡ succeeded)
      → IsOk a
      → result d (elim a as (λ _. Proc Done) [ ok s ↦ f s | err e ↦ fails_as e ds ]) ≡ succeeded
  went_well (ok s) d ds f g h = g s
  went_well (err e) d ds f g h = absurd h

  cold_boot-fails :
      (row : Option InstanceRow) (d : Db)
      → ((s : InstanceSpec) (b : GuestBootstrap) → IsErr (answers (Call.start (target x) s b)))
      → IsFailed (result d (cold_boot x row))
  unfolding cold_boot
  cold_boot-fails none d h = tt
  cold_boot-fails (some r) d h = to_work-failed _ (h _ _)

  from_memory-fails :
      (epoch : Option ℕ) (sid : Option String) (row : Option InstanceRow) (d : Db)
      → ((o : Option String) → IsErr (answers (Call.resume (target x) o)))
      → IsFailed (result d (from_memory x epoch sid row))
  unfolding from_memory
  from_memory-fails epoch sid row d h = erred _ _ _ _ (h _)

  resumed-fails :
      (epoch : Option ℕ) (sid : Option String)
      → ((o : Option String) → IsErr (answers (Call.resume (target x) o)))
        × ((s : InstanceSpec) (b : GuestBootstrap) → IsErr (answers (Call.start (target x) s b)))
      → (row : Option InstanceRow) (decision : Restore) (d : Db)
      → IsFailed (result d (decided x epoch sid row decision))
  resumed-fails epoch sid h row Restore.from_memory d = from_memory-fails epoch sid row d (h.0)
  resumed-fails epoch sid h row (Restore.cold_boot reason) d = cold_boot-fails row d (h.1)
  resumed-fails epoch sid h row (Restore.refuse reason) d = tt

  restored-fails :
      (objects : List ObjectBytes) (d : Db)
      → ((s : InstanceSpec) (b : GuestBootstrap)
          → IsErr (answers (Call.restore_from_objects objects s b)))
      → IsFailed (result d (restored x objects))
  unfolding restored
  restored-fails objects d h = with_row-result IsFailed _ _ (λ m. tt) (λ r. erred _ _ _ _ (h _ _))

  capsule-fails :
      ((bs : List ObjectBytes) (s : InstanceSpec) (b : GuestBootstrap)
        → IsErr (answers (Call.restore_from_objects bs s b)))
      → (objects : Loaded) (d : Db) → IsFailed (result d (loaded_then x objects))
  capsule-fails h (Loaded.not_loaded reason message) d = tt
  capsule-fails h (Loaded.loaded bs) d = restored-fails bs d (h bs)

  asked_capture-fails :
      (name : Option String) (hook : HookDone) (d : Db)
      → IsErr (answers (Call.create_snapshot (target x) name))
      → IsFailed (result d (asked_capture x name hook))
  asked_capture-fails name hook d h =
      erred (answers (Call.create_snapshot (target x) name)) d (hook.1)
        (λ s. captured x name s (hook.0) (hook.1)) h

  asked_pause-fails :
      (memory : Bool) (hook : HookDone) (d : Db)
      → IsErr (answers (Call.pause (target x)))
      → IsFailed (result d (asked_pause x memory hook))
  asked_pause-fails memory hook d h =
      erred (answers (Call.pause (target x))) _ (hook.1) (λ s. paused x memory s (hook.0) (hook.1))
        h

  pause-fails :
      (memory : Bool) (d : Db)
      → IsErr (answers (Call.pause (target x)))
      → IsFailed (result d (run_pause x memory))
  unfolding run_pause
  pause-fails memory d h =
      later IsFailed _ (run_pre_snapshot_hook x) (λ hook. asked_pause x memory hook)
        (λ hook m. asked_pause-fails memory hook m h)

  capture-fails :
      (name : Option String) (d : Db)
      → IsErr (answers (Call.create_snapshot (target x) name))
      → IsFailed (result d (run_create_snapshot x name))
  unfolding run_create_snapshot
  capture-fails name d h =
      later IsFailed _ (run_pre_snapshot_hook x)
        (λ hook. bind (prepared x) (λ _. asked_capture x name hook))
        (λ hook m.
          later IsFailed m (prepared x) (λ _. asked_capture x name hook)
            (λ u n. asked_capture-fails name hook n h))

  resume-fails :
      (epoch : Option ℕ) (sid : Option String) (memory : Bool) (d : Db)
      → ((o : Option String) → IsErr (answers (Call.resume (target x) o)))
        × ((s : InstanceSpec) (b : GuestBootstrap) → IsErr (answers (Call.start (target x) s b)))
      → IsFailed (result d (run_resume x epoch sid memory))
  unfolding run_resume
  resume-fails epoch sid memory d h =
      later IsFailed _ (resolve_restore x.cfg (target x) sid memory)
        (λ found. decided x epoch sid (found.0) (found.1))
        (λ found m. resumed-fails epoch sid h (found.0) (found.1) m)

  restore_capsule-fails :
      (c : CapsuleRequest) (d : Db)
      → ((bs : List ObjectBytes) (s : InstanceSpec) (b : GuestBootstrap)
          → IsErr (answers (Call.restore_from_objects bs s b)))
      → IsFailed (result d (run_restore_capsule x c))
  unfolding run_restore_capsule
  restore_capsule-fails c d h =
      later IsFailed _ (load_capsule_objects c.capsule_id) (λ loaded. loaded_then x loaded)
        (λ loaded m. capsule-fails h loaded m)

  verb-fails :
      (epoch : Option ℕ) (p : OpPayload) (d : Db)
      → Refused answers (target x) p
      → IsFailed (result d (verb x epoch p))
  unfolding run_create run_start run_stop run_delete_snapshot run_destroy run_fork
  verb-fails epoch (OpPayload.create spec) d h =
      with_row-result IsFailed _ _ (λ m. tt) (λ r. to_work-failed _ (h _))
  verb-fails epoch OpPayload.start d h =
      with_row-result IsFailed _ _ (λ m. tt) (λ r. to_work-failed _ (h _ _))
  verb-fails epoch (OpPayload.stop grace) d h = to_work-failed _ h
  verb-fails epoch (OpPayload.pause memory) d h = pause-fails memory d h
  verb-fails epoch (OpPayload.resume sid memory) d h = resume-fails epoch sid memory d h
  verb-fails epoch (OpPayload.create_snapshot name) d h = capture-fails name d h
  verb-fails epoch (OpPayload.delete_snapshot sid) d h = erred _ _ _ _ h
  verb-fails epoch (OpPayload.destroy keep) d h = erred _ _ _ _ h
  verb-fails epoch (OpPayload.fork f) d h =
      with_row-result IsFailed _ _ (λ m. tt) (λ r. erred _ _ _ _ (h _ _))
  verb-fails epoch (OpPayload.restore_capsule c) d h = restore_capsule-fails c d h

  -- A verb whose work the runtime refuses fails.
  pub refused_fails :
      (epoch : Option ℕ) (d : Db)
      → Refused answers (target x) x.payload
      → IsFailed (result d (run_verb x epoch))
  unfolding run_verb
  refused_fails epoch d h = verb-fails epoch x.payload d h

  with_row-found :
      (P : Work → Type 0) (d : Db) (f : InstanceRow → Proc Done) (r : InstanceRow)
      → find (of_instance (target x)) d.journal.instances ≡ some r
      → P (result d (f r))
      → P (result d (with_row x f))
  with_row-found P d f r e h = by_row (find (of_instance (target x)) d.journal.instances) e
    where
      by_row :
          (o : Option InstanceRow)
          → o ≡ some r
          → P (
              result d (elim o as (λ _. Proc Done) [
                | none ↦ fails ErrorReason.unspecified "the instance vanished from the journal"
                | some r ↦ f r
              ]))
      by_row none e = absurd cc
      by_row (some u) e = subst (λ r. P (result d (f r))) (ground arith) h

  abbrev Succeeds : Work → Type 0
  Succeeds w = (w ≡ succeeded)

  paused-Succeeds :
      (memory : Bool) (s : SnapshotRef) (hook : Option HookOutcome) (ds : List String) (d : Db)
      → s.kind ≡ SnapshotKind.memory_and_disk
      → Succeeds (result d (paused x memory s hook ds))
  unfolding paused record_snapshot
  paused-Succeeds true s hook ds d e = rw e refl
  paused-Succeeds false s hook ds d e = rw e refl

  captured-Succeeds :
      (name : Option String) (s : SnapshotRef) (hook : Option HookOutcome) (ds : List String)
      (d : Db)
      → Succeeds (result d (captured x name s hook ds))
  unfolding captured record_snapshot
  captured-Succeeds name s hook ds d = refl

  forked-Succeeds : (o : ForkOutcome) (d : Db) → Succeeds (result d (forked x o))
  unfolding forked
  forked-Succeeds o d = elim (Bool-cases o.froze_source) [ inl t ↦ rw t refl | inr f ↦ rw f refl ]

  destroyed-Succeeds :
      (keep : Bool) (d : Db)
      → Succeeds (
          result d (
            if keep
            then Proc.done (succeeded, [])
            else bind
                (step x "snapshots.forget")
                (λ _. bind (forget_snapshots x) (λ ds. Proc.done (succeeded, ds)))))
  destroyed-Succeeds true d = refl
  destroyed-Succeeds false d = later Succeeds _ (forget_snapshots x) _ (λ ds m. refl)

  asked_pause-Succeeds :
      (memory : Bool) (hook : HookDone) (d : Db) (s : SnapshotRef)
      → answers (Call.pause (target x)) ≡ ok s
      → s.kind ≡ SnapshotKind.memory_and_disk
      → Succeeds (result d (asked_pause x memory hook))
  asked_pause-Succeeds memory hook d s a k = rw a (paused-Succeeds memory s (hook.0) (hook.1) _ k)

  pause-Succeeds :
      (memory : Bool) (d : Db) (s : SnapshotRef)
      → answers (Call.pause (target x)) ≡ ok s
      → s.kind ≡ SnapshotKind.memory_and_disk
      → Succeeds (result d (run_pause x memory))
  unfolding run_pause
  pause-Succeeds memory d s a k =
      later Succeeds _ (run_pre_snapshot_hook x) (λ hook. asked_pause x memory hook)
        (λ hook m. asked_pause-Succeeds memory hook m s a k)

  capture-Succeeds :
      (name : Option String) (d : Db)
      → IsOk (answers (Call.create_snapshot (target x) name))
      → Succeeds (result d (run_create_snapshot x name))
  unfolding run_create_snapshot
  capture-Succeeds name d h =
      later Succeeds _ (run_pre_snapshot_hook x)
        (λ hook. bind (prepared x) (λ _. asked_capture x name hook))
        (λ hook m.
          later Succeeds m (prepared x) (λ _. asked_capture x name hook)
            (λ u n.
              went_well (answers (Call.create_snapshot (target x) name)) n (hook.1)
                (λ s. captured x name s (hook.0) (hook.1))
                (λ s. captured-Succeeds name s (hook.0) (hook.1) n) h))

  verb-Succeeds :
      (epoch : Option ℕ) (p : OpPayload) (d : Db) (r : InstanceRow)
      → find (of_instance (target x)) d.journal.instances ≡ some r
      → Served answers (target x) p
      → Succeeds (result d (verb x epoch p))
  unfolding run_create run_start run_stop run_delete_snapshot run_destroy run_fork set_op_step
  verb-Succeeds epoch (OpPayload.create spec) d r there h =
      (with_row-found Succeeds _ _ r there (to_work-succeeded _ (h _)))
  verb-Succeeds epoch OpPayload.start d r there h =
      (with_row-found Succeeds _ _ r there (to_work-succeeded _ (h _ _)))
  verb-Succeeds epoch (OpPayload.stop grace) d r there h = (to_work-succeeded _ h)
  verb-Succeeds epoch (OpPayload.pause memory) d r there (s, a, k) = (pause-Succeeds memory d s a k)
  verb-Succeeds epoch (OpPayload.resume sid memory) d r there h = absurd h
  verb-Succeeds epoch (OpPayload.create_snapshot name) d r there h = (capture-Succeeds name d h)
  verb-Succeeds epoch (OpPayload.delete_snapshot sid) d r there h =
      (went_well _ _ _ _ (λ s. refl) h)
  verb-Succeeds epoch (OpPayload.destroy keep) d r there h =
      (went_well _ _ _ _ (λ s. destroyed-Succeeds keep _) h)
  verb-Succeeds epoch (OpPayload.fork f) d r there h =
      (with_row-found Succeeds _ _ r there (went_well _ _ _ _ (λ o. forked-Succeeds o _) (h _ _)))
  verb-Succeeds epoch (OpPayload.restore_capsule c) d r there h = absurd h

  -- A verb whose work the runtime does succeeds, where the instance has its row.
  pub Served-Succeeds :
      (epoch : Option ℕ) (d : Db) (r : InstanceRow)
      → find (of_instance (target x)) d.journal.instances ≡ some r
      → Served answers (target x) x.payload
      → Succeeds (result d (run_verb x epoch))
  unfolding run_verb
  Served-Succeeds epoch d r there h = verb-Succeeds epoch x.payload d r there h
