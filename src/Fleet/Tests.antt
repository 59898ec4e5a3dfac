-- ===== src/Fleet/Tests.antt =====
-- Concrete runs of the operations of crates/barista-fleet/src/lease.rs over the store in memory.
use Prim.Native.String.{String}
use barista_sh.Base.{ℕ, ◌≡◌, ◌%◌, none, some, List, [], ◌∷◌, inl, inr, refl, arith}
use barista_sh.Base.Int.{pos, u64_mod, add_i64, wrap_i64, ◌+ℤ◌}
use barista_sh.Fleet.Record.{
  Lease, ok, default_timing, validate, ttl_ms, is_expired_at, Held, Acquired, Renewed,
}
use barista_sh.Fleet.Program.{PutMode, GetReply, PutReply, done}
use barista_sh.Fleet.Lease.{session_key, read, put_lease, acquire, renew, stamp_state, release}
use barista_sh.Fleet.Lease.Renewing.{Fenced, renew_outcome, stamp_keeps_liveness}
use barista_sh.Fleet.Lease.Outcome.{Attempt, acquire_outcome}
use barista_sh.Fleet.Lease.Writing.{object}
use barista_sh.Fleet.Lease.Takeover.{Takeable-acquired, release_hands_over}
use barista_sh.Fleet.Backend.{Exec}
use barista_sh.Fleet.Cluster.{
  Task, here, acquires, renews, starts, reads, writes, Run, begins, then,
}
use barista_sh.Fleet.Cluster.Fencing.{one_owner_per_epoch, superseded_write_refused}
use barista_sh.Fleet.Base64.{symbol, encode, decode}
use barista_sh.Fleet.Base64.RoundTrip.{decode-encode}
use barista_sh.Fleet.Memory.{plain, Memory, empty, stored, memory, memory_answers}

-- `n1` takes the free name "a" at time 0; `n2` finds it expired at time 20 000 and takes it over,
-- then renews it at time 21 000.
abbrev first : Lease
first = record {
  owner = "n1";
  epoch = 1;
  expires_ms = pos 15000;
  endpoint = "e1";
  instance_id = "";
  state = none;
}

abbrev second : Lease
second = record {
  owner = "n2";
  epoch = 2;
  expires_ms = pos 35000;
  endpoint = "e2";
  instance_id = "";
  state = none;
}

abbrev third : Lease
third = record {
  owner = "n2";
  epoch = 2;
  expires_ms = pos 36000;
  endpoint = "e2";
  instance_id = "";
  state = some "running";
}

abbrev key : String
key = "sessions/a"

abbrev mem1 : Memory
mem1 = stored empty key first

abbrev mem2 : Memory
mem2 = stored mem1 key second

abbrev mem3 : Memory
mem3 = stored mem2 key third

abbrev held1 : Held ℕ
held1 = record { lease = first; version = 0 }

abbrev held2 : Held ℕ
held2 = record { lease = second; version = 1 }

abbrev held3 : Held ℕ
held3 = record { lease = third; version = 2 }

first_acquired :
    Exec memory empty
      (acquire plain "a" "n1" "e1" default_timing (pos 0))
      (ok (Acquired.held held1))
      mem1
unfolding acquire read put_lease validate ttl_ms add_i64 wrap_i64 ◌+ℤ◌
first_acquired = (
  GetReply.not_found,
  empty,
  (refl, refl),
  (PutReply.stored 0, mem1, inl (tt, refl, refl), (refl, refl)),
)

second_acquired :
    Exec memory mem1
      (acquire plain "a" "n2" "e2" default_timing (pos 20000))
      (ok (Acquired.held held2))
      mem2
unfolding acquire read put_lease validate ttl_ms add_i64 wrap_i64 ◌+ℤ◌ is_expired_at session_key
second_acquired = (
  GetReply.found first 0,
  mem1,
  (refl, refl),
  (PutReply.stored 1, mem2, inl (refl, refl, refl), (refl, refl)),
)

second_renewed :
    Exec memory mem2
      (renew plain "a" held2 default_timing (pos 21000) (some "running"))
      (ok (Renewed.held held3))
      mem3
unfolding renew put_lease ttl_ms add_i64 wrap_i64 ◌+ℤ◌ session_key
second_renewed = (PutReply.stored 2, mem3, inl (refl, refl, refl), (refl, refl))

abbrev after1 : List (Task Lease ℕ)
after1 = done (ok (some held1)) ∷ []

abbrev after2 : List (Task Lease ℕ)
after2 = done (ok (some held2)) ∷ after1

abbrev after3 : List (Task Lease ℕ)
after3 = done (ok (some held3)) ∷ after2

run1 : Run plain memory "a" 3 mem1 after1
unfolding acquire read put_lease validate ttl_ms add_i64 wrap_i64 ◌+ℤ◌ session_key
run1 =
    then
      (then (then (begins empty refl) (starts refl _ (acquires "n1" "e1" default_timing (pos 0))))
        (reads key _ GetReply.not_found (refl, refl) here))
      (writes key first PutMode.create _ (PutReply.stored 0) (inl (tt, refl, refl)) here)

run2 : Run plain memory "a" 6 mem2 after2
unfolding acquire read put_lease validate ttl_ms add_i64 wrap_i64 ◌+ℤ◌ is_expired_at session_key
run2 =
    then
      (then (then run1 (starts refl _ (acquires "n2" "e2" default_timing (pos 20000))))
        (reads key _ (GetReply.found first 0) (refl, refl) here))
      (writes key second (PutMode.update 0) _ (PutReply.stored 1) (inl (refl, refl, refl)) here)

run3 : Run plain memory "a" 8 mem3 after3
unfolding renew put_lease ttl_ms add_i64 wrap_i64 ◌+ℤ◌ session_key
run3 =
    then
      (then run2
        (starts refl _ (renews held2 default_timing (pos 21000) (some "running") (inl refl))))
      (writes key third (PutMode.update 1) _ (PutReply.stored 2) (inl (refl, refl, refl)) here)

one_owner_per_epoch_example : held2.lease.owner ≡ held3.lease.owner
one_owner_per_epoch_example =
    one_owner_per_epoch plain memory "a" 8 mem3 after3 held2 held3 run3 (omega arith)
      (inr (inl refl)) (inl refl) refl

superseded_write_refused_example :
    ¬ memory.Puts mem3 key first (PutMode.update 0) (PutReply.stored 3) mem3
unfolding session_key
superseded_write_refused_example =
    superseded_write_refused plain memory "a" 8 mem3 mem3 after3 held1 held3 first 3 run3
      (omega arith) (inr (inr (inl refl))) (inl refl) (omega arith)

acquire_outcome_example :
    Attempt plain memory "a" "n2" "e2" default_timing
      (pos 20000)
      (object plain memory "a" mem1)
      (Acquired.held held2)
      (object plain memory "a" mem2)
acquire_outcome_example =
    acquire_outcome plain memory "a" "n2" "e2" default_timing (pos 20000) mem1 mem2
      (Acquired.held held2) second_acquired

renew_outcome_example : Fenced plain memory "a" held2 third mem2 (Renewed.held held3) mem3
unfolding ttl_ms add_i64 wrap_i64 ◌+ℤ◌
renew_outcome_example =
    renew_outcome plain memory "a" mem2 mem3 held2 default_timing (pos 21000) (some "running")
      (Renewed.held held3) second_renewed

-- A stamp under the version of `n1`, which `n2` has superseded.
late_stamp : Exec memory mem2 (stamp_state plain "a" held1 (some "paused")) (ok Renewed.fenced) mem2
unfolding stamp_state put_lease session_key
late_stamp = (PutReply.precondition, mem2, inr (tt, refl), (refl, refl))

stamp_keeps_liveness_example :
    (l : Lease) × Fenced plain memory "a" held1 l mem2 Renewed.fenced mem2
    × (l.expires_ms ≡ pos 15000)
    × (l.owner ≡ "n1")
    × (l.epoch ≡ 1)
stamp_keeps_liveness_example =
    stamp_keeps_liveness plain memory "a" mem2 mem2 held1 (some "paused") "" Renewed.fenced
      (inl late_stamp)

default_fits : validate default_timing ≡ ok tt
unfolding validate
default_fits = refl

Takeable-acquired_example :
    (a : Held ℕ) × (t : Memory) × Exec memory mem1
      (acquire plain "a" "n2" "e2" default_timing (pos 20000))
      (ok (Acquired.held a))
      t
unfolding session_key is_expired_at
Takeable-acquired_example =
    Takeable-acquired plain (λ l. (l, refl)) memory memory_answers "a" mem1 "n2" "e2" default_timing
      (pos 20000) default_fits (inr (first, 0, (first, refl, refl), refl))

release_hands_over_example :
    (a : Held ℕ) × (t u : Memory) × Exec memory mem2 (release plain "a" held2) (ok tt) t
    × Exec memory t
        (acquire plain "a" "n1" "e1" default_timing (pos 20500))
        (ok (Acquired.held a))
        u
    × (a.lease.owner ≡ "n1")
    × (a.lease.epoch ≡ 3 % u64_mod)
unfolding session_key
release_hands_over_example =
    release_hands_over plain (λ l. (l, refl)) memory memory_answers "a" mem2 held2 second "n1" "e1"
      default_timing (pos 20500) refl default_fits (omega arith)

-- "foob" is "Zm9vYg==".
foob_encoded : encode (102 ∷ 111 ∷ 111 ∷ 98 ∷ []) ≡ 90 ∷ 109 ∷ 57 ∷ 118 ∷ 89 ∷ 103 ∷ 61 ∷ 61 ∷ []
unfolding encode symbol
foob_encoded = refl

decode-encode_example :
    decode (encode (102 ∷ 111 ∷ 111 ∷ 98 ∷ [])) ≡ some (102 ∷ 111 ∷ 111 ∷ 98 ∷ [])
decode-encode_example =
    decode-encode (102 ∷ 111 ∷ 111 ∷ 98 ∷ [])
      (omega arith, (omega arith, (omega arith, (omega arith, tt))))
