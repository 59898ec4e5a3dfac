-- ===== src/Reconcile/Sweep/Survivors.antt =====
-- What `sweep_instances` (crates/barista-node-agent/src/reconcile.rs) leaves of an instance's sandboxes.
use Prim.Native.String.{String}
use barista_sh.Base.{
  ◌+◌, ◌≤◌, ltb, Bool, true, false, not, Option, none, some, List, [], ◌∷◌, ◌++◌, length, All, In,
  if◌then◌else◌, ◌≡◌, ◌⊎◌, ◌∙◌, ap, inl, inr, refl, arith,
}
use barista_sh.Journal.Table.{All-weaken}
use barista_sh.Node.Runtime.{Sandbox, ok, err, Call}
use barista_sh.Node.Process.{Notice, done, notify}
use barista_sh.Node.Log.{Event, Logs}
use barista_sh.Reconcile.Vanished.{contains}
use barista_sh.Reconcile.Sweep.{
  running_in, idle_in, but_last, duplicates, reap_sandbox, reap_each, sweep_group,
}

but_last-All :
    (P : Sandbox → Type 0) (xs ys : List Sandbox)
    → All P xs
    → length ys ≤ 1
    → All P (but_last (xs ++ ys))
but_last-All P [] [] h l = tt
but_last-All P [] (y ∷ []) h l = tt
but_last-All P [] (y ∷ z ∷ ys) h l = absurd (omega (arith, l))
but_last-All P (x ∷ []) [] h l = tt
but_last-All P (x ∷ []) (y ∷ ys) (h, hs) l = (h, but_last-All P [] (y ∷ ys) tt l)
but_last-All P (x ∷ w ∷ xs) ys (h, hs) l = (h, but_last-All P (w ∷ xs) ys hs l)

idle_in-All : (g : List Sandbox) → All (λ s. (s.running ≡ false) × In s g) (idle_in g)
idle_in-All [] = tt
idle_in-All (s ∷ g) =
    by_running s.running refl (All-weaken _ _ (idle_in g) (λ x h. (h.0, inr (h.1))) (idle_in-All g))
  where
    by_running :
        (b : Bool)
        → s.running ≡ b
        → All (λ x. (x.running ≡ false) × In x (s ∷ g)) (idle_in g)
        → All (λ x. (x.running ≡ false) × In x (s ∷ g)) (if b then idle_in g else s ∷ idle_in g)
    by_running true e h = h
    by_running false e h = ((e, inl refl), h)

length-but_last : (xs : List Sandbox) → 1 ≤ length xs → length (but_last xs) + 1 ≡ length xs
length-but_last [] h = absurd (omega (arith, h))
length-but_last (x ∷ []) h = refl
length-but_last (x ∷ y ∷ xs) h = omega (arith, length-but_last (y ∷ xs) (omega arith))

length-parts : (g : List Sandbox) → length (idle_in g) + length (running_in g) ≡ length g
length-parts [] = refl
length-parts (s ∷ g) = ground (arith, length-parts g)

length-append : (xs ys : List Sandbox) → length (xs ++ ys) ≡ length xs + length ys
length-append [] ys = omega arith
length-append (x ∷ xs) ys = omega (arith, length-append xs ys)

duplicates_all_but_one : (g : List Sandbox) → 1 ≤ length g → length (duplicates g) + 1 ≡ length g
duplicates_all_but_one g h = omega (
  arith,
  length-parts g,
  length-append (idle_in g) (running_in g),
  h,
  length-but_last (idle_in g ++ running_in g)
      (omega (arith, length-parts g, length-append (idle_in g) (running_in g), h)),
)

-- The log of the removal of these sandboxes, in order.
abbrev pub removals : List Sandbox → List Event
removals [] = []
removals (s ∷ ss) = Event.called (Call.remove_sandbox s.substrate_id) ∷ removals ss

-- The reap of a list of sandboxes removes each of them, however it is answered.
reap_each-log :
    (id : String) (ss : List Sandbox) (l : List Event) → Logs (reap_each id ss) l → l ≡ removals ss
unfolding reap_each reap_sandbox
reap_each-log id [] l e = e
reap_each-log id (s ∷ ss) l (ok u, m, e, g) =
    e ∙ ap (λ t. Event.called (Call.remove_sandbox s.substrate_id) ∷ t) (reap_each-log id ss m g)
reap_each-log id (s ∷ ss) l (err f, m, e, g) =
    e ∙ ap (λ t. Event.called (Call.remove_sandbox s.substrate_id) ∷ t) (reap_each-log id ss m g)

-- the forks in flight are known, and none is of this instance
abbrev pub Unforked : String → Option (List String) → Type 0
Unforked id none = ⊥
Unforked id (some sources) = contains id sources ≡ false

-- Why a sweep leaves the sandboxes of a live instance alone.
abbrev pub Left : String → Option (List String) → List Sandbox → Type 0
Left id exempt group = (length group ≤ 1) ⊎ (¬ Unforked id exempt ⊎ (2 ≤ length (running_in group)))

-- What a sweep of an instance's sandboxes did, by its log: nothing, with a reason, or it removed idle sandboxes of
-- the instance, all but one in number, while no fork from the instance was in flight.
abbrev pub Spared : String → Option (List String) → List Sandbox → List Event → Type 0
Spared id exempt group l =
    ((l ≡ []) × Left id exempt group)
    ⊎ ((gone : List Sandbox) × (l ≡ removals gone)
        × All (λ s. (s.running ≡ false) × In s group) gone
        × (length gone + 1 ≡ length group)
        × Unforked id exempt)

-- Of the sandboxes of an instance that is live a sweep writes nothing and removes no running one,
-- none where a fork from the instance is in flight or where that is not known, and, where it removes
-- any, all but one: however it is answered, its log is the removals of idle sandboxes of the instance,
-- one fewer than the instance has, or it is empty, and then the instance has one sandbox at most, or
-- two running ones, or such a fork.
pub sweep_spares_live :
    (live : List String) (exempt : Option (List String)) (id : String) (group : List Sandbox)
    (l : List Event)
    → contains id live ≡ true
    → Logs (sweep_group live exempt id group) l
    → Spared id exempt group l
unfolding sweep_group
sweep_spares_live live exempt id group l e g =
    by_count (not (ltb 1 (length group))) refl (rw e at g)
  where
    reaped :
        (sources : List String)
        → not (ltb 1 (length group)) ≡ false
        → contains id sources ≡ false
        → ltb 1 (length (running_in group)) ≡ false
        → Logs (reap_each id (duplicates group)) l
        → Spared id (some sources) group l
    reaped sources many free few g = inr (
      duplicates group,
      reap_each-log id (duplicates group) l g,
      but_last-All (λ s. (s.running ≡ false) × In s group) (idle_in group) (running_in group)
          (idle_in-All group) (ground (arith, few)),
      duplicates_all_but_one group (ground (arith, many)),
      free,
    )

    by_running :
        (sources : List String) (b : Bool)
        → not (ltb 1 (length group)) ≡ false
        → contains id sources ≡ false
        → ltb 1 (length (running_in group)) ≡ b
        → Logs
            (if b
              then notify
                  (Notice.degradation id "" "more than one running sandbox; none was deleted")
                  (done tt)
              else reap_each id (duplicates group))
            l
        → Spared id (some sources) group l
    by_running sources true many free few g = inl (g, inr (inr (ground (arith, few))))
    by_running sources false many free few g = reaped sources many free few g

    by_source :
        (sources : List String) (b : Bool)
        → not (ltb 1 (length group)) ≡ false
        → contains id sources ≡ b
        → Logs
            (if b
              then done tt
              else if ltb 1 (length (running_in group))
              then notify
                  (Notice.degradation id "" "more than one running sandbox; none was deleted")
                  (done tt)
              else reap_each id (duplicates group))
            l
        → Spared id (some sources) group l
    by_source sources true many free g = inl (g, inr (inl (λ h. cc (h, free))))
    by_source sources false many free g =
        by_running sources (ltb 1 (length (running_in group))) many free refl g

    by_exempt :
        (o : Option (List String))
        → not (ltb 1 (length group)) ≡ false
        → Logs
            (elim o [
              | none ↦ done tt
              | some sources ↦
                  if contains id sources
                  then done tt
                  else if ltb 1 (length (running_in group))
                  then notify
                      (Notice.degradation id "" "more than one running sandbox; none was deleted")
                      (done tt)
                  else reap_each id (duplicates group)
            ])
            l
        → Spared id o group l
    by_exempt none many g = inl (g, inr (inl (λ h. h)))
    by_exempt (some sources) many g = by_source sources (contains id sources) many refl g

    by_count :
        (b : Bool)
        → not (ltb 1 (length group)) ≡ b
        → Logs
            (if b then done tt else elim exempt [
              | none ↦ done tt
              | some sources ↦
                  if contains id sources
                  then done tt
                  else if ltb 1 (length (running_in group))
                  then notify
                      (Notice.degradation id "" "more than one running sandbox; none was deleted")
                      (done tt)
                  else reap_each id (duplicates group)
            ])
            l
        → Spared id exempt group l
    by_count true many g = inl (g, inl (ground (arith, many)))
    by_count false many g = by_exempt exempt many g
