-- ===== src/Fleet/Memory.antt =====
-- An object store in memory with exact conditional writes: an instance of what
-- crates/barista-fleet/src/lease.rs relies on, with which concrete runs are made.
use Prim.Native.String.{String}
use mathlib.Core.Path.{subst}
use text.Mathlib.Text.{◌==◌ as str_eq}
use text.Mathlib.TextEquality.{eq_iff}
use text.Mathlib.TextPositions.{eq_refl}
use barista_sh.Base.{
  ℕ, suc, ◌<◌, ◌==◌, ltb, if◌then◌else◌, Bool-cases, Option, none, some, ◌≡◌, ◌≢◌, ◌⊎◌, inl, inr,
  refl, sym, ap, ◌∙◌, arith,
}
use barista_sh.Fleet.Record.{Lease}
use barista_sh.Fleet.Program.{PutMode, GetReply, PutReply, Wire}
use barista_sh.Fleet.Backend.{Backend, Responsive, Admits, IsRefusal}

pub plain_reads_back : (l b : Lease) → some l ≡ some b → some b ≡ some l
plain_reads_back l b e = sym e

-- Records travel as they are.
abbrev pub plain : Wire Lease
plain = record {
  to_vec = some;
  from_slice = some;
  path_from = λ p. p;
  reads_back = plain_reads_back;
}

-- The writes so far, each under its number, and the number of the one that is current at a path.
pub record Memory : Type 0 where
  pub count : ℕ
  pub log : ℕ → Option (String × Lease)
  pub newest : String → Option ℕ

abbrev pub empty : Memory
empty = record { count = 0; log = λ n. none; newest = λ p. none }

abbrev of_entry : String → ℕ → Option (String × Lease) → Option (Lease × ℕ)
of_entry p n none = none
of_entry p n (some (q, l)) = if str_eq q p then some (l, n) else none

abbrev of_version : Memory → String → Option ℕ → Option (Lease × ℕ)
of_version s p none = none
of_version s p (some n) = if ltb n s.count then of_entry p n (s.log n) else none

abbrev pub lookup : Memory → String → Option (Lease × ℕ)
lookup s p = of_version s p (s.newest p)

abbrev pub Written : Memory → String → Lease → ℕ → Type 0
Written s p l n = (n < s.count) × (s.log n ≡ some (p, l))

abbrev pub stored : Memory → String → Lease → Memory
stored s p l = record {
  count = suc s.count;
  log = λ n. if n == s.count then some (p, l) else s.log n;
  newest = λ q. if str_eq p q then some s.count else s.newest q;
}

abbrev pub answer : Option (Lease × ℕ) → GetReply Lease ℕ
answer none = GetReply.not_found
answer (some (l, n)) = GetReply.found l n

abbrev pub Gets : Memory → String → GetReply Lease ℕ → Memory → Type 0
Gets s p r t = (r ≡ answer (lookup s p)) × (t ≡ s)

abbrev pub Puts : Memory → String → Lease → PutMode Lease ℕ → PutReply Lease ℕ → Memory → Type 0
Puts s p l m r t =
    (Admits (lookup s p) m × (r ≡ PutReply.stored s.count) × (t ≡ stored s p l))
    ⊎ (IsRefusal r × (t ≡ s))

present_entry :
    (s : Memory) (p : String) (l : Lease) (n k : ℕ) (o : Option (String × Lease))
    → k < s.count
    → s.log k ≡ o
    → of_entry p k o ≡ some (l, n)
    → Written s p l n
present_entry s p l n k none h g e = absurd (cc e)
present_entry s p l n k (some (q, c)) h g e = elim (Bool-cases (str_eq q p)) [
  | inl same ↦
      (let at : ◌≡◌ {A = Option (Lease × ℕ)} (some (c, k)) (some (l, n)) = rw same at e in
        let name : q ≡ p = (eq_iff q p).0 same in (ground arith, cc))
  | inr other ↦ absurd (cc (rw other at e))
]

pub present_version :
    (s : Memory) (p : String) (l : Lease) (n : ℕ) (o : Option ℕ)
    → of_version s p o ≡ some (l, n)
    → Written s p l n
present_version s p l n none e = absurd (cc e)
present_version s p l n (some k) e = elim (Bool-cases (ltb k s.count)) [
  | inl old ↦ present_entry s p l n k (s.log k) (ground arith) refl (rw old at e)
  | inr new ↦ absurd (cc (rw new at e))
]

pub one_record :
    (s : Memory) (p : String) (b c : Lease) (v : ℕ) → Written s p b v → Written s p c v → b ≡ c
one_record s p b c v x y =
    let same : ◌≡◌ {A = Option (String × Lease)} (some (p, b)) (some (p, c)) = sym x.1 ∙ y.1 in cc

pub found_there :
    (o : Option (Lease × ℕ)) (l : Lease) (n : ℕ) → GetReply.found l n ≡ answer o → o ≡ some (l, n)
found_there none l n e = absurd (cc e)
found_there (some (c, k)) l n e = cc

pub absent_there : (o : Option (Lease × ℕ)) → GetReply.not_found ≡ answer o → o ≡ none
absent_there none e = refl
absent_there (some (c, k)) e = absurd (cc e)

stored_here : (s : Memory) (p : String) (l : Lease) → lookup (stored s p l) p ≡ some (l, s.count)
stored_here s p l = ground (arith, eq_refl p)

stored_kept :
    (s : Memory) (p q : String) (l c : Lease) (n : ℕ)
    → Written s q c n
    → Written (stored s p l) q c n
stored_kept s p q l c n w = (omega arith, ground arith)

stored_elsewhere :
    (s : Memory) (p q : String) (l : Lease) → q ≢ p → lookup (stored s p l) q ≡ lookup s q
stored_elsewhere s p q l ne = ground (arith, eq_iff p q)

pub refused_same :
    (s t : Memory) (p : String) (l : Lease) (m : PutMode Lease ℕ) (r : PutReply Lease ℕ)
    → IsRefusal r
    → Puts s p l m r t
    → lookup t p ≡ lookup s p
refused_same s t p l m r denied (inl (a, e, d)) = absurd (subst IsRefusal e denied)
refused_same s t p l m r denied (inr (n, d)) = ap (λ z. lookup z p) d

pub accepted :
    (s t : Memory) (p : String) (l : Lease) (m : PutMode Lease ℕ) (n : ℕ)
    → Puts s p l m (PutReply.stored n) t
    → Admits (lookup s p) m × (lookup t p ≡ some (l, n))
accepted s t p l m n (inl (a, e, d)) = (a, ap (λ z. lookup z p) d ∙ stored_here s p l ∙ cc)
accepted s t p l m n (inr (denied, d)) = absurd denied

pub failed_nowhere :
    (s t : Memory) (p : String) (l : Lease) (m : PutMode Lease ℕ)
    → ¬ Puts s p l m PutReply.put_error t
failed_nowhere s t p l m (inl (a, e, d)) = cc e
failed_nowhere s t p l m (inr (denied, d)) = denied

pub elsewhere_same :
    (s t : Memory) (p q : String) (l : Lease) (m : PutMode Lease ℕ) (r : PutReply Lease ℕ)
    → Puts s p l m r t
    → q ≢ p
    → lookup t q ≡ lookup s q
elsewhere_same s t p q l m r (inl (a, e, d)) ne =
    ap (λ z. lookup z q) d ∙ stored_elsewhere s p q l ne
elsewhere_same s t p q l m r (inr (denied, d)) ne = ap (λ z. lookup z q) d

pub writes_kept :
    (s t : Memory) (p q : String) (l c : Lease) (m : PutMode Lease ℕ) (r : PutReply Lease ℕ) (n : ℕ)
    → Puts s p l m r t
    → Written s q c n
    → Written t q c n
writes_kept s t p q l c m r n (inl (a, e, d)) w =
    subst (λ z. Written z q c n) (sym d) (stored_kept s p q l c n w)
writes_kept s t p q l c m r n (inr (denied, d)) w = subst (λ z. Written z q c n) (sym d) w

abbrev pub memory : Backend Lease ℕ
memory = record {
  Store = Memory;
  lookup = lookup;
  Written = Written;
  Gets = Gets;
  Puts = Puts;
  present_written = λ s p b v e. present_version s p b v (s.newest p) e;
  one_body = one_record;
  gets_found = λ s t p b v g. found_there (lookup s p) b v g.0;
  gets_not_found = λ s t p g. absent_there (lookup s p) g.0;
  gets_same = λ s t p r g q. ap (λ z. lookup z q) g.1;
  gets_kept = λ s t p r g q c v w. subst (λ z. Written z q c v) (sym g.1) w;
  puts_stored = accepted;
  puts_refused = refused_same;
  puts_error = λ s t p b m x. absurd (failed_nowhere s t p b m x);
  puts_elsewhere = λ s t p b m r x q ne. elsewhere_same s t p q b m r x ne;
  puts_kept = λ s t p b m r x q c v w. writes_kept s t p q b c m r v x w;
}

pub memory_answers : Responsive Lease ℕ memory
memory_answers = record {
  shows = λ s p b v e. (s, (sym (ap answer e), refl));
  shows_none = λ s p e. (s, (sym (ap answer e), refl));
  accepts = λ s p b m a. (s.count, stored s p b, inl (a, refl, refl));
}
