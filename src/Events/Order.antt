-- ===== src/Events/Order.antt =====
-- Cursors of the event journal of crates/barista-node-agent/src/db.rs only go up.
use barista_sh.Base.{
  ℕ, zero, suc, ◌+◌, ◌≤◌, ◌<◌, Bool, All, List, [], ◌∷◌, ◌++◌, some, Option-cases, Bool-cases, ◌≡◌,
  refl, inl, inr, arith,
}
use barista_sh.Base.Int.{ℤ}
use barista_sh.Journal.Table.{delete, All-delete, All-weaken}
use barista_sh.Events.Log.{
  Event, Log, insert_event, prune_events, head_cursor, max_cursor, take, select, older, pruned,
}

-- Each cursor is below those of the rows that follow.
abbrev pub Ascending : List Event → Type 0
Ascending [] = Unit
Ascending (e ∷ es) = All (λ x. e.cursor < x.cursor) es × Ascending es

abbrev Within : ℕ → Event → Type 0
Within n e = (0 < e.cursor) × (e.cursor ≤ n)

pub record Ordered (log : Log) : Type 0 where
  pub ascending : Ascending log.events
  pub within : All (λ e. (0 < e.cursor) × (e.cursor ≤ log.sequence)) log.events
  pub pruned : log.last_pruned_cursor ≤ log.sequence

abbrev pub empty_log : Log
empty_log = record { events = []; sequence = 0; last_pruned_cursor = 0 }

-- What a node does to its event journal.
pub data Kept : Log → Type 0 where
  begins : Kept empty_log
  inserts : {log : Log} → Kept log → (ev : Event) (now : ℤ) → Kept (insert_event ev now log).1
  prunes : {log : Log} → Kept log → (limit : ℤ) (chunk : ℕ) → Kept (prune_events limit chunk log).1

All-append : (P : Event → Type 0) (es fs : List Event) → All P es → All P fs → All P (es ++ fs)
All-append P [] fs a b = b
All-append P (e ∷ es) fs (x, a) b = (x, All-append P es fs a b)

Ascending-append :
    (n : ℕ) (es : List Event) (e : Event)
    → All (λ x. (0 < x.cursor) × (x.cursor ≤ n)) es
    → n < e.cursor
    → Ascending es
    → Ascending (es ++ (e ∷ []))
Ascending-append n [] e w h a = (tt, tt)
Ascending-append n (x ∷ es) e (y, w) h (b, a) = (
  All-append (λ z. x.cursor < z.cursor) es (e ∷ []) b (omega arith, tt),
  Ascending-append n es e w h a,
)

Ascending-delete : (p : Event → Bool) (es : List Event) → Ascending es → Ascending (delete p es)
Ascending-delete p [] a = tt
Ascending-delete p (e ∷ es) (b, a) = elim (Bool-cases (p e)) [
  | inl k ↦ rw k (Ascending-delete p es a)
  | inr k ↦ rw k (All-delete (λ x. e.cursor < x.cursor) p es b, Ascending-delete p es a)
]

max-within :
    (P : Event → Type 0) (n m : ℕ) (es : List Event)
    → ((e : Event) → P e → e.cursor ≤ n)
    → All P es
    → max_cursor es ≡ some m
    → m ≤ n
max-within P n m [] h a e = absurd cc
max-within P n m (x ∷ es) h (y, a) e = elim (Option-cases (max_cursor es)) [
  | inl k ↦ ground (arith, k, h x y)
  | inr (o, k) ↦ ground (arith, k, h x y, max-within P n o es h a k)
]

All-select :
    (P : Event → Type 0) (p : Event → Bool) (es : List Event) → All P es → All P (select p es)
All-select P p [] a = tt
All-select P p (e ∷ es) (x, a) = elim (Bool-cases (p e)) [
  | inl k ↦ rw k (x, All-select P p es a)
  | inr k ↦ rw k (All-select P p es a)
]

All-take : (P : Event → Type 0) (n : ℕ) (es : List Event) → All P es → All P (take n es)
All-take P zero es a = tt
All-take P (suc n) [] a = tt
All-take P (suc n) (e ∷ es) (x, a) = (x, All-take P n es a)

inserted-Ordered :
    (ev : Event) (now : ℤ) (log : Log) → Ordered log → Ordered (insert_event ev now log).1
unfolding insert_event
inserted-Ordered ev now log o = record {
  ascending = Ascending-append log.sequence log.events _ o.within (omega arith) o.ascending;
  within =
      All-append _ log.events _ (All-weaken _ _ log.events (λ e (p, q). (p, omega arith)) o.within)
        ((omega arith, omega arith), tt);
  pruned = omega (arith, o.pruned);
}

pruned-Ordered :
    (limit : ℤ) (chunk : ℕ) (log : Log) → Ordered log → Ordered (prune_events limit chunk log).1
unfolding prune_events
pruned-Ordered limit chunk log o =
    elim (Option-cases (max_cursor (take chunk (select (older limit) log.events)))) [
      | inl k ↦ rw (k, prune_events) o
      | inr (h, k) ↦
          rw (k, prune_events)
            (record {
              ascending = Ascending-delete (pruned limit h) log.events o.ascending;
              within = All-delete _ (pruned limit h) log.events o.within;
              pruned = ground (
                arith,
                o.pruned,
                max-within (λ e. (0 < e.cursor) × (e.cursor ≤ log.sequence)) log.sequence h
                    (take chunk (select (older limit) log.events)) (λ e (p, q). q)
                    (All-take _ chunk _ (All-select _ (older limit) log.events o.within)) k,
              );
            })
    ]

pub Kept-Ordered : {log : Log} → Kept log → Ordered log
Kept-Ordered begins = record { ascending = tt; within = tt; pruned = omega arith }
Kept-Ordered (inserts {log = log} k ev now) = inserted-Ordered ev now log (Kept-Ordered k)
Kept-Ordered (prunes {log = log} k limit chunk) = pruned-Ordered limit chunk log (Kept-Ordered k)

max-append :
    (es : List Event) (e : Event)
    → All (λ x. x.cursor < e.cursor) es
    → max_cursor (es ++ (e ∷ [])) ≡ some e.cursor
max-append [] e a = refl
max-append (x ∷ es) e (h, a) = ground (arith, h, max-append es e a)

-- In a journal that a node keeps, a new event's cursor is larger than every cursor in the table,
-- than the head that a tail subscriber anchored to, and than the last one pruned, and it is the new
-- head.
pub cursors_increase :
    {log : Log}
    → Kept log
    → (ev : Event) (now : ℤ)
    → All (λ e. e.cursor < (insert_event ev now log).0) log.events
      × (head_cursor log < (insert_event ev now log).0)
      × (log.last_pruned_cursor < (insert_event ev now log).0)
      × (head_cursor (insert_event ev now log).1 ≡ (insert_event ev now log).0)
unfolding insert_event head_cursor
cursors_increase {log = log} k ev now =
    let o = Kept-Ordered k in
    (
      All-weaken _ _ log.events (λ e (p, q). omega arith) o.within,
      elim (Option-cases (max_cursor log.events)) [
        | inl n ↦ ground (arith, n)
        | inr (h, n) ↦ ground (
          arith,
          n,
          max-within (λ e. (0 < e.cursor) × (e.cursor ≤ log.sequence)) log.sequence h log.events
              (λ e (p, q). q) o.within n,
        )
      ],
      omega (arith, o.pruned),
      ground (
        arith,
        max-append log.events (record ev { cursor = log.sequence + 1; at_ms = now })
            (All-weaken _ _ log.events (λ e (p, q). omega arith) o.within),
      ),
    )
