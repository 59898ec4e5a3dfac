-- ===== src/Events/Tests.antt =====
-- Concrete runs of the event journal of crates/barista-node-agent/src/db.rs.
use barista_sh.Base.{◌<◌, All, In, ◌++◌, none, ◌≡◌, inl, inr, arith, refl}
use barista_sh.Base.Int.{pos}
use barista_sh.Events.Log.{
  Event, Log, insert_event, prune_events, journal_floor, head_cursor, events_after,
}
use barista_sh.Events.Order.{empty_log, Kept, begins, inserts, cursors_increase}
use barista_sh.Events.Paging.{last_cursor, page_then_rest}
use barista_sh.Events.Retention.{Timely, prune_keeps_above_floor}

abbrev event : Event
event = record {
  cursor = 0;
  type_code = 1;
  instance_id = "i-1";
  op_id = "";
  state = 4;
  message = "";
  at_ms = pos 0;
  stop_reason = none;
}

abbrev one : Log
one = (insert_event event (pos 10) empty_log).1

abbrev two : Log
two = (insert_event event (pos 20) one).1

abbrev first : Event
first = record event { cursor = 1; at_ms = pos 10 }

one-Kept : Kept one
one-Kept = inserts begins event (pos 10)

two-Kept : Kept two
two-Kept = inserts one-Kept event (pos 20)

first-two : In first two.events
unfolding insert_event
first-two = inl refl

second_stays : (prune_events (pos 15) 100 two).0 ≡ 1
unfolding prune_events insert_event
second_stays = refl

cursors_increase_example :
    All (λ e. e.cursor < (insert_event event (pos 20) one).0) one.events
    × (head_cursor one < (insert_event event (pos 20) one).0)
    × (one.last_pruned_cursor < (insert_event event (pos 20) one).0)
    × (head_cursor two ≡ (insert_event event (pos 20) one).0)
cursors_increase_example = cursors_increase one-Kept event (pos 20)

page_then_rest_example :
    events_after 0 "" 0 two
    ≡ events_after 0 "" 1 two ++ events_after (last_cursor 0 (events_after 0 "" 1 two)) "" 0 two
page_then_rest_example = page_then_rest two-Kept 0 1 "" (omega arith)

abbrev second : Event
second = record event { cursor = 2; at_ms = pos 20 }

second-two : In second two.events
unfolding insert_event
second-two = inr (inl refl)

two-Timely : Timely two.events
unfolding insert_event
two-Timely a b (inl i) (inl j) h = ground (arith, i, j)
two-Timely a b (inl i) (inr (inl j)) h = ground (arith, i, j)
two-Timely a b (inl i) (inr (inr j)) h = absurd j
two-Timely a b (inr (inr i)) j h = absurd i
two-Timely a b (inr (inl i)) (inr (inr j)) h = absurd j
two-Timely a b (inr (inl i)) (inl j) h = ground (arith, i, j)
two-Timely a b (inr (inl i)) (inr (inl j)) h = ground (arith, i, j)

floor_after : journal_floor (prune_events (pos 15) 100 two).1 < 2
unfolding journal_floor prune_events insert_event
floor_after = omega arith

prune_keeps_above_floor_example : In second (prune_events (pos 15) 100 two).1.events
prune_keeps_above_floor_example =
    prune_keeps_above_floor two (pos 15) 100 two-Timely second second-two floor_after
