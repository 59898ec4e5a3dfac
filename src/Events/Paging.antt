-- ===== src/Events/Paging.antt =====
-- Replay of the event journal in pages (crates/barista-node-agent/src/db.rs), the way
-- `WatchEvents` reads it: each page starts after the last cursor of the one before.
use Prim.Native.String.{String}
use text.Mathlib.Text.{◌==◌ as str_eq}
use mathlib.Core.Path.{subst}
use barista_sh.Base.{
  ℕ, zero, suc, ◌+◌, ◌≤◌, ◌<◌, ◌==◌, Bool, true, false, ◌||◌, All, List, [], ◌∷◌, ◌++◌, Bool-cases,
  ◌≡◌, refl, sym, ap, ◌∙◌, inl, inr, arith, if◌then◌else◌,
}
use barista_sh.Base.Int.{ℤ}
use barista_sh.Events.Log.{Event, Log, insert_event, take, select, wanted, events_after}
use barista_sh.Events.Order.{Ascending, Kept, Kept-Ordered}

-- The last cursor of a page, or the one that the page was read from.
abbrev pub last_cursor : ℕ → List Event → ℕ
last_cursor cursor [] = cursor
last_cursor cursor (e ∷ es) = last_cursor e.cursor es

-- Rows after `high` are the same rows whatever lower cursor the query names.
select-higher :
    (low high : ℕ) (id : String) (es : List Event)
    → low ≤ high
    → All (λ x. high < x.cursor) es
    → select (wanted low id) es ≡ select (wanted high id) es
select-higher low high id [] h a = refl
select-higher low high id (e ∷ es) h (x, a) = ground (arith, h, x, select-higher low high id es h a)

page-starts :
    (n cursor : ℕ) (id : String) (es : List Event)
    → Ascending es
    → cursor ≤ last_cursor cursor (take n (select (wanted cursor id) es))
page-starts zero cursor id es a = omega arith
page-starts (suc n) cursor id [] a = omega arith
page-starts (suc n) cursor id (e ∷ es) (b, a) = elim (Bool-cases (wanted cursor id e)) [
  | inl k ↦
      rw (k, select-higher cursor e.cursor id es (ground (arith, k)) b)
        (omega (arith, page-starts n e.cursor id es a, later k))
  | inr k ↦ rw k (page-starts (suc n) cursor id es a)
]
  where
    later : wanted cursor id e ≡ true → cursor < e.cursor
    later k = ground arith

not_again :
    (low cursor : ℕ) (id : String) (e : Event) (es : List Event)
    → (wanted low id e ≡ false)
    → low ≤ cursor
    → select (wanted cursor id) (e ∷ es) ≡ select (wanted cursor id) es
not_again low cursor id e es k h = ground arith

already_read :
    (cursor : ℕ) (id : String) (e : Event) (es : List Event)
    → e.cursor ≤ cursor
    → select (wanted cursor id) (e ∷ es) ≡ select (wanted cursor id) es
already_read cursor id e es h = ground arith

pages :
    (n cursor : ℕ) (id : String) (es : List Event)
    → Ascending es
    → select (wanted cursor id) es
      ≡ take n (select (wanted cursor id) es)
        ++ select (wanted (last_cursor cursor (take n (select (wanted cursor id) es))) id) es
pages zero cursor id es a = refl
pages (suc n) cursor id [] a = refl
pages (suc n) cursor id (e ∷ es) (b, a) = elim (Bool-cases (wanted cursor id e)) [
  | inl k ↦
      let same = select-higher cursor e.cursor id es (ground (arith, k)) b in
      let rest = pages n e.cursor id es a in
      let low = page-starts n e.cursor id es a in
      let skip =
        already_read (last_cursor e.cursor (take n (select (wanted e.cursor id) es))) id e es low in
      subst
        (λ l.
          l ≡ take (suc n) l ++ select (wanted (last_cursor cursor (take (suc n) l)) id) (e ∷ es))
        (sym (first k same))
        (ap (λ x. e ∷ x) (rest ∙ ap (λ z. take n (select (wanted e.cursor id) es) ++ z) (sym skip)))
  | inr k ↦
      let rest = pages (suc n) cursor id es a in
      let skip =
        not_again cursor (last_cursor cursor (take (suc n) (select (wanted cursor id) es))) id e es
          k (page-starts (suc n) cursor id es a) in
      subst
        (λ l.
          l ≡ take (suc n) l ++ select (wanted (last_cursor cursor (take (suc n) l)) id) (e ∷ es))
        (sym (passed k))
        (rest ∙ ap (λ z. take (suc n) (select (wanted cursor id) es) ++ z) (sym skip))
]
  where
    first :
        wanted cursor id e ≡ true
        → select (wanted cursor id) es ≡ select (wanted e.cursor id) es
        → select (wanted cursor id) (e ∷ es) ≡ e ∷ select (wanted e.cursor id) es
    first k same = ground (arith, k, same)

    passed :
        wanted cursor id e ≡ false
        → select (wanted cursor id) (e ∷ es) ≡ select (wanted cursor id) es
    passed k = ground (arith, k)

-- A replay loses nothing and repeats nothing at a page boundary: in a journal that a node keeps,
-- the unbounded replay is a page of any size followed by the unbounded replay from the page's last
-- cursor, for each instance filter.
pub page_then_rest :
    {log : Log}
    → Kept log
    → (cursor limit : ℕ) (id : String) → 0 < limit
    → events_after cursor id 0 log
      ≡ events_after cursor id limit log
        ++ events_after (last_cursor cursor (events_after cursor id limit log)) id 0 log
unfolding events_after
page_then_rest {log = log} k cursor zero id h = absurd (omega arith)
page_then_rest {log = log} k cursor (suc n) id h =
    rw (nonzero n) (pages (suc n) cursor id log.events (Kept-Ordered k).ascending)
  where
    nonzero : (n : ℕ) → (suc n == 0) ≡ false
    nonzero n = ground arith

select-append :
    (p : Event → Bool) (es fs : List Event) → select p (es ++ fs) ≡ select p es ++ select p fs
select-append p [] fs = refl
select-append p (e ∷ es) fs = ground (arith, select-append p es fs)

-- A subscriber whose cursor is in the past is handed a new event last, after everything that it
-- would have been handed before, unless it filters on another instance; then nothing changes for it.
pub new_event_follows :
    {log : Log}
    → Kept log
    → (ev : Event) (now : ℤ) (cursor : ℕ) (id : String) → cursor ≤ log.sequence
    → events_after cursor id 0 (insert_event ev now log).1
      ≡ events_after cursor id 0 log
        ++ (if str_eq id "" || str_eq ev.instance_id id
            then record ev { cursor = (insert_event ev now log).0; at_ms = now } ∷ []
            else [])
unfolding events_after insert_event
new_event_follows {log = log} k ev now cursor id h = ground (
  arith,
  h,
  select-append (wanted cursor id) log.events
      (record ev { cursor = log.sequence + 1; at_ms = now } ∷ []),
)
