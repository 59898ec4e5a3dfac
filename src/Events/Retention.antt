-- ===== src/Events/Retention.antt =====
-- Retention in the event journal of crates/barista-node-agent/src/db.rs: what a prune removes, and
-- what the floor tells a subscriber.
use Prim.Native.Nat.{max}
use mathlib.Core.Path.{subst}
use barista_sh.Base.{
  ℕ, ◌+◌, ◌-◌, ◌≤◌, ◌<◌, Bool, true, false, leb, length, All, In, List, [], ◌∷◌, Option, none, some,
  Option-cases, Bool-cases, ◌≡◌, refl, sym, ap, ◌∙◌, inl, inr, arith,
}
use barista_sh.Base.Int.{ℤ, ◌≤ℤ◌}
use barista_sh.Journal.Table.{delete}
use barista_sh.Events.Log.{
  Event, Log, prune_events, journal_floor, min_cursor, max_cursor, take, select, older, pruned,
}
use barista_sh.Events.Order.{Kept, Kept-Ordered}

-- The clock never ran backwards between two events.
abbrev pub Timely : List Event → Type 0
Timely es = (a b : Event) → In a es → In b es → a.cursor ≤ b.cursor → a.at_ms ≤ℤ b.at_ms

min-In : (es : List Event) (m : ℕ) → min_cursor es ≡ some m → (e : Event) × In e es × (e.cursor ≡ m)
min-In [] m k = absurd cc
min-In (e ∷ es) m k = elim (Option-cases (min_cursor es)) [
  | inl n ↦ (e, inl refl, ground (arith, n))
  | inr (o, n) ↦
      let (x, i, c) = min-In es o n in
      elim (Bool-cases (leb e.cursor o)) [
        | inl b ↦ (e, inl refl, ground (arith, n, b))
        | inr b ↦ (x, inr i, ground (arith, n, b, c))
      ]
]

min-none : (es : List Event) → min_cursor es ≡ none → es ≡ []
min-none [] k = refl
min-none (e ∷ es) k = elim (Option-cases (min_cursor es)) [
  | inl n ↦ absurd (ground (arith, n))
  | inr (o, n) ↦ absurd (ground (arith, n))
]

min-lowest : (es : List Event) (m : ℕ) (e : Event) → min_cursor es ≡ some m → In e es → m ≤ e.cursor
min-lowest [] m e k i = absurd i
min-lowest (x ∷ es) m e k (inl i) = elim (Option-cases (min_cursor es)) [
  | inl n ↦ ground (arith, n, ap (λ y. y.cursor) i)
  | inr (o, n) ↦ ground (arith, n, ap (λ y. y.cursor) i)
]
min-lowest (x ∷ es) m e k (inr i) = elim (Option-cases (min_cursor es)) [
  | inl n ↦ absurd (nothing (min-none es n))
  | inr (o, n) ↦ ground (arith, n, min-lowest es o e n i)
]
  where
    nothing : es ≡ [] → ⊥
    nothing k = subst (λ y. In e y) k i

kept-In :
    (p : Event → Bool) (es : List Event) (e : Event) → In e es → p e ≡ false → In e (delete p es)
kept-In p [] e i h = i
kept-In p (x ∷ es) e (inl i) h = rw (ap p i ∙ h) (inl i)
kept-In p (x ∷ es) e (inr i) h = elim (Bool-cases (p x)) [
  | inl b ↦ rw b (kept-In p es e i h)
  | inr b ↦ rw b (inr (kept-In p es e i h))
]

In-kept :
    (p : Event → Bool) (es : List Event) (e : Event) → In e (delete p es) → In e es × (p e ≡ false)
In-kept p [] e i = absurd i
In-kept p (x ∷ es) e i = elim (Bool-cases (p x)) [
  | inl b ↦ let (k, h) = In-kept p es e (rw b at i) in (inr k, h)
  | inr b ↦ elim (rw b at i) [
    | inl k ↦ (inl k, ap p (sym k) ∙ b)
    | inr k ↦ let (m, h) = In-kept p es e k in (inr m, h)
  ]
]

-- A kept row is newer than a pruned one, where the clock only went forwards.
kept_after :
    (limit : ℤ) (h : ℕ) (a b : Event) (es : List Event)
    → Timely es
    → In a es
    → In b es
    → pruned limit h a ≡ true
    → pruned limit h b ≡ false
    → a.cursor < b.cursor
kept_after limit h a b es t i j p q = elim (Bool-cases (leb b.cursor a.cursor)) [
  | inl k ↦ absurd (ground (arith, p, q, t b a j i (ground (arith, k))))
  | inr k ↦ ground (arith, k)
]

count-pruned :
    (p : Event → Bool) (es : List Event) → length (delete p es) + length (select p es) ≡ length es
count-pruned p [] = refl
count-pruned p (e ∷ es) = ground (arith, count-pruned p es)

floor_over :
    (limit : ℤ) (h : ℕ) (e : Event) (log : Log)
    → Timely log.events
    → In e log.events
    → pruned limit h e ≡ true
    → (o : Option ℕ) → min_cursor (delete (pruned limit h) log.events) ≡ o
    → e.cursor ≤ elim o [ some oldest ↦ oldest - 1 | none ↦ max log.last_pruned_cursor h ]
floor_over limit h e log t i p none k = ground (arith, p)
floor_over limit h e log t i p (some m) k =
    let (b, j, c) = min-In (delete (pruned limit h) log.events) m k in
    let (inside, q) = In-kept (pruned limit h) log.events b j in
    omega (arith, c, kept_after limit h e b log.events t i inside p q)

-- If the clock did not run backwards between the events of a journal, a prune leaves a subscriber
-- with no hole: an event of the table whose cursor is above the floor that the journal reports
-- afterwards is still in it.
pub prune_keeps_above_floor :
    (log : Log) (limit : ℤ) (chunk : ℕ)
    → Timely log.events
    → (e : Event) → In e log.events
    → journal_floor (prune_events limit chunk log).1 < e.cursor
    → In e (prune_events limit chunk log).1.events
unfolding prune_events journal_floor
prune_keeps_above_floor log limit chunk t e i =
    elim (Option-cases (max_cursor (take chunk (select (older limit) log.events)))) [
      | inl k ↦ rw (k, prune_events) (λ f. i)
      | inr (h, k) ↦
          rw (k, prune_events)
            (λ f. elim (Bool-cases (pruned limit h e)) [
              | inr q ↦ kept-In (pruned limit h) log.events e i q
              | inl q ↦ absurd (
                  omega (
                    arith,
                    f,
                    floor_over limit h e log t i q (min_cursor (delete (pruned limit h) log.events))
                        refl,
                  ))
            ])
    ]

-- A prune reports exactly how many events it removed, and it never removes one that is not older
-- than its limit.
pub prune_removes_old :
    (log : Log) (limit : ℤ) (chunk : ℕ) (e : Event)
    → In e log.events
    → limit ≤ℤ e.at_ms
    → In e (prune_events limit chunk log).1.events
      × (length (prune_events limit chunk log).1.events + (prune_events limit chunk log).0
          ≡ length log.events)
unfolding prune_events
prune_removes_old log limit chunk e i f =
    elim (Option-cases (max_cursor (take chunk (select (older limit) log.events)))) [
      | inl k ↦ rw (k, prune_events) (i, ground arith)
      | inr (h, k) ↦
          rw (k, prune_events)
            (
              kept-In (pruned limit h) log.events e i (ground (arith, f)),
              count-pruned (pruned limit h) log.events,
            )
    ]

In-All : (P : Event → Type 0) (es : List Event) (e : Event) → All P es → In e es → P e
In-All P [] e a i = absurd i
In-All P (x ∷ es) e (h, a) (inl i) = subst P i h
In-All P (x ∷ es) e (h, a) (inr i) = In-All P es e a i

-- The floor hides no event: in a journal that a node keeps, every event in the table has a cursor
-- above the floor.
pub floor_below_events :
    {log : Log} → Kept log → (e : Event) → In e log.events → journal_floor log < e.cursor
unfolding journal_floor
floor_below_events {log = log} k e i = elim (Option-cases (min_cursor log.events)) [
  | inl n ↦ absurd (subst (λ y. In e y) (min-none log.events n) i)
  | inr (m, n) ↦ ground (
    arith,
    n,
    min-lowest log.events m e n i,
    In-All (λ e. (0 < e.cursor) × (e.cursor ≤ log.sequence)) log.events e (Kept-Ordered k).within i,
  )
]
