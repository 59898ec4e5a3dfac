-- ===== src/Reconcile/Sweep.antt =====
-- `sweep_instances` and `reap_credentials` of crates/barista-node-agent/src/reconcile.rs. The text of
-- a fork's payload is read by an argument, `source_snapshot_of` of db.rs.
pub mod Survivors
use Prim.Native.String.{String, compare}
use Prim.Native.Nat.{Ordering}
use text.Mathlib.Text.{◌==◌ as str_eq}
use barista_sh.Base.{
  ℕ, suc, ltb, Bool, true, false, not, ◌&&◌, ◌||◌, Option, none, some, is_none, List, [], ◌∷◌, ◌++◌,
  length, if◌then◌else◌,
}
use barista_sh.Journal.Rows.{StoredOperation}
use barista_sh.Journal.Snapshots.{Db, SnapshotRow, get_snapshot}
use barista_sh.Node.Runtime.{Sandbox, Credential, ok, err, Call}
use barista_sh.Node.Process.{Notice, Proc, ◌>>=◌, ◌>>◌, pure, tell, ask, query}
use barista_sh.Reconcile.Vanished.{contains}
use barista_sh.Reconcile.Recover.{live_ids}

abbrev with_source : Option SnapshotRow → List String → List String
with_source none rest = rest
with_source (some s) rest = if str_eq s.instance_id "" then rest else s.instance_id ∷ rest

abbrev found_in : Db → Option String → Option SnapshotRow
unfolding get_snapshot
found_in d none = none
found_in d (some id) = get_snapshot id d

-- `Db::fork_source_instances_in_flight`
abbrev fork_sources : (String → Option String) → Db → List StoredOperation → List String
unfolding found_in
fork_sources source_snapshot_of d [] = []
fork_sources source_snapshot_of d (r ∷ rs) =
    let rest = fork_sources source_snapshot_of d rs in
    if str_eq r.op.kind "fork" && r.executor_active
    then with_source (found_in d (source_snapshot_of r.op.payload)) rest
    else rest

-- the keys of the `BTreeMap`
abbrev pub insert_key : String → List String → List String
insert_key id [] = id ∷ []
insert_key id (k ∷ ks) =
    let later = insert_key id ks in
    elim (compare id k) [
      | Ordering.lt ↦ id ∷ k ∷ ks
      | Ordering.eq ↦ k ∷ ks
      | Ordering.gt ↦ k ∷ later
    ]

abbrev pub instances_of : List Sandbox → List String
instances_of [] = []
instances_of (s ∷ ss) = insert_key s.instance_id (instances_of ss)

abbrev pub group_of : String → List Sandbox → List Sandbox
group_of id [] = []
group_of id (s ∷ ss) =
    let rest = group_of id ss in if str_eq s.instance_id id then s ∷ rest else rest

abbrev pub running_in : List Sandbox → List Sandbox
running_in [] = []
running_in (s ∷ ss) = let rest = running_in ss in if s.running then s ∷ rest else rest

abbrev pub idle_in : List Sandbox → List Sandbox
idle_in [] = []
idle_in (s ∷ ss) = let rest = idle_in ss in if s.running then rest else s ∷ rest

abbrev pub but_last : List Sandbox → List Sandbox
but_last [] = []
but_last (s ∷ []) = []
but_last (s ∷ t ∷ ss) = s ∷ but_last (t ∷ ss)

-- the stable sort by `running`, less the survivor that is popped
abbrev pub duplicates : List Sandbox → List Sandbox
duplicates group = but_last (idle_in group ++ running_in group)

-- `reap_sandbox`
unfoldable pub reap_sandbox : String → Sandbox → Proc (Unit {0})
reap_sandbox id s = do
  a ← ask (Call.remove_sandbox s.substrate_id)
  elim a [
    | ok _ ↦ tell (Notice.degradation id "" "a sandbox was removed by the sweep")
    | err _ ↦ pure tt
  ]

unfoldable pub reap_each : String → List Sandbox → Proc (Unit {0})
unfolding reap_sandbox
reap_each id [] = pure tt
reap_each id (s ∷ ss) = do reap_sandbox id s; reap_each id ss

-- the sandboxes of one instance; `exempt` is `none` where the forks in flight are not known
unfoldable pub sweep_group :
    List String → Option (List String) → String → List Sandbox → Proc (Unit {0})
unfolding reap_each
sweep_group live exempt id group =
    if not (contains id live)
    then reap_each id group
    else if not (ltb 1 (length group))
    then pure tt
    else elim exempt [
      | none ↦ pure tt
      | some sources ↦
          if contains id sources
          then pure tt
          else if ltb 1 (length (running_in group))
          then tell (Notice.degradation id "" "more than one running sandbox; none was deleted")
          else reap_each id (duplicates group)
    ]

unfoldable pub sweep_each :
    List String → Option (List String) → List Sandbox → List String → Proc (Unit {0})
unfolding sweep_group
sweep_each live exempt sandboxes [] = pure tt
sweep_each live exempt sandboxes (id ∷ ids) = do
  sweep_group live exempt id (group_of id sandboxes)
  sweep_each live exempt sandboxes ids

-- `sweep_instances`
unfoldable pub sweep_instances : (String → Option String) → Proc (Unit {0})
unfolding sweep_each fork_sources
sweep_instances source_snapshot_of = do
  a ← ask Call.list_sandboxes
  elim a [
    | err _ ↦ pure tt
    | ok [] ↦ pure tt
    | ok (s ∷ ss) ↦ do
      live ← query (λ d. live_ids d.journal.instances)
      elim live [
        | none ↦ pure tt
        | some ids ↦ do
          exempt ← query (λ d. fork_sources source_snapshot_of d d.journal.operations)
          sweep_each ids exempt (s ∷ ss) (instances_of (s ∷ ss))
      ]
  ]

-- the credentials of no live instance are removed, and those without a claim are collected
unfoldable pub reap_credentials_of : List String → List Credential → Proc (List String)
reap_credentials_of live [] = pure []
reap_credentials_of live (c ∷ cs) =
    let rest = reap_credentials_of live cs in
    elim c.instance [
      | none ↦ do ids ← rest; pure (insert_key c.id ids)
      | some id ↦ if contains id live then rest else (do
        a ← ask (Call.remove_credential c.id)
        elim a [
          | ok _ ↦ tell (Notice.degradation id "" "a credential outlived its instance")
          | err _ ↦ pure tt
        ]
        rest)
    ]

abbrev same_ids : List String → List String → Bool
same_ids [] [] = true
same_ids (i ∷ is) (k ∷ ks) = str_eq i k && same_ids is ks
same_ids _ _ = false

abbrev is_empty : List String → Bool
is_empty [] = true
is_empty _ = false

-- `reap_credentials`, from the ids reported before to those reported after
unfoldable pub reap_credentials : List String → Proc (List String)
unfolding reap_credentials_of
reap_credentials reported = do
  a ← ask Call.list_credentials
  elim a [
    | err _ ↦ do
      tell (Notice.degradation "" "" "the credential sweep could not enumerate the substrate")
      pure reported
    | ok [] ↦ pure reported
    | ok (c ∷ cs) ↦ do
      live ← query (λ d. live_ids d.journal.instances)
      elim live [
        | none ↦ pure reported
        | some ids ↦ do
          unclaimed ← reap_credentials_of ids (c ∷ cs)
          (if same_ids unclaimed reported || is_empty unclaimed
              then pure tt
              else tell
                  (Notice.degradation "" "" "credentials with no node claim were left in place"))
          pure unclaimed
      ]
  ]
