-- ===== src/Node/Sequential.antt =====
-- A process that runs alone: every read sees the database, every write is carried out, and the
-- runtime and the guest answer as they like.
use mathlib.Core.Path.{subst}
use barista_sh.Base.{some, ◌≡◌, refl}
use barista_sh.Journal.Snapshots.{Db}
use barista_sh.Node.Runtime.{Call, Reply}
use barista_sh.Node.Process.{Proc, done, look, write, call, notify, bind}
use barista_sh.Node.Keeps.{Keeps, Safe}

abbrev pub Runs : {A : Type 0} → Db → Proc A → A → Db → Type 0
Runs d (done a) b e = (a ≡ b) × (d ≡ e)
Runs d (look k) b e = Runs d (k (some d)) b e
Runs d (write w k) b e = Runs (w d).1 (k (w d).0) b e
Runs d (call c k) b e = (r : Reply c) × Runs d (k r) b e
Runs d (notify n p) b e = Runs d p b e

-- The run of a sequence is a run of its first part and one of its second.
pub split :
    {A B : Type 0} (d : Db) (p : Proc A) (f : A → Proc B) (b : B) (e : Db)
    → Runs d (bind p f) b e
    → (a : A) × (m : Db) × Runs d p a m × Runs m (f a) b e
split d (done a) f b e h = (a, d, (refl, refl), h)
split d (look k) f b e h = split d (k (some d)) f b e h
split d (write w k) f b e h = split (w d).1 (k (w d).0) f b e h
split d (call c k) f b e (r, h) =
    let (a, m, first, second) = split d (k r) f b e h in (a, m, (r, first), second)
split d (notify n p) f b e h = split d p f b e h

-- A property of the database that every write keeps holds at the end.
pub kept :
    {A : Type 0} (I : Db → Type 0) (C : Call → Type 0) (Q : A → Type 0) (d : Db) (p : Proc A)
    (a : A) (e : Db)
    → Keeps (λ R w. (m : Db) → I m → I (w m).1) C Q p
    → I d
    → Runs d p a e
    → I e × Q a
kept I C Q d (done a) b e h i (s, t) = (subst I t i, subst Q s h)
kept I C Q d (look k) b e h i r = kept I C Q d (k (some d)) b e (h (some d)) i r
kept I C Q d (write w k) b e h i r = kept I C Q (w d).1 (k (w d).0) b e (h.1 (w d).0) (h.0 d i) r
kept I C Q d (call c k) b e h i (a, r) = kept I C Q d (k a) b e (h.1 a) i r
kept I C Q d (notify n p) b e h i r = kept I C Q d p b e h i r

-- What every run that starts from a database ends with.
abbrev pub Leads : {A : Type 0} → (A → Db → Type 0) → Db → Proc A → Type 0
Leads Q d (done a) = Q a d
Leads Q d (look k) = Leads Q d (k (some d))
Leads Q d (write w k) = Leads Q (w d).1 (k (w d).0)
Leads Q d (call c k) = (r : Reply c) → Leads Q d (k r)
Leads Q d (notify n p) = Leads Q d p

pub led :
    {A : Type 0} (Q : A → Db → Type 0) (d : Db) (p : Proc A) (a : A) (e : Db)
    → Leads Q d p
    → Runs d p a e
    → Q a e
led Q d (done a) b e h (s, t) = subst (λ m. Q b m) t (subst (λ c. Q c d) s h)
led Q d (look k) b e h r = led Q d (k (some d)) b e h r
led Q d (write w k) b e h r = led Q (w d).1 (k (w d).0) b e h r
led Q d (call c k) b e h (a, r) = led Q d (k a) b e (h a) r
led Q d (notify n p) b e h r = led Q d p b e h r

-- the second part leads there from wherever the first ends
pub carry_on :
    {A B : Type 0} (Q : B → Db → Type 0) (d : Db) (p : Proc A) (f : A → Proc B)
    → ((a : A) (m : Db) → Leads Q m (f a))
    → Leads Q d (bind p f)
carry_on Q d (done a) f h = h a d
carry_on Q d (look k) f h = carry_on Q d (k (some d)) f h
carry_on Q d (write w k) f h = carry_on Q (w d).1 (k (w d).0) f h
carry_on Q d (call c k) f h = λ r. carry_on Q d (k r) f h
carry_on Q d (notify n p) f h = carry_on Q d p f h

-- The run in which the runtime and the guest answer as the function says.
abbrev pub run : {A : Type 0} → ((c : Call) → Reply c) → Db → Proc A → A × Db
run answers d (done a) = (a, d)
run answers d (look k) = run answers d (k (some d))
run answers d (write w k) = run answers (w d).1 (k (w d).0)
run answers d (call c k) = run answers d (k (answers c))
run answers d (notify n p) = run answers d p

pub run-Runs :
    {A : Type 0} (answers : (c : Call) → Reply c) (d : Db) (p : Proc A)
    → Runs d p (run answers d p).0 (run answers d p).1
run-Runs answers d (done a) = (refl, refl)
run-Runs answers d (look k) = run-Runs answers d (k (some d))
run-Runs answers d (write w k) = run-Runs answers (w d).1 (k (w d).0)
run-Runs answers d (call c k) = (answers c, run-Runs answers d (k (answers c)))
run-Runs answers d (notify n p) = run-Runs answers d p

pub run-bind :
    {A B : Type 0} (answers : (c : Call) → Reply c) (d : Db) (p : Proc A) (f : A → Proc B)
    → run answers d (bind p f) ≡ run answers (run answers d p).1 (f (run answers d p).0)
run-bind answers d (done a) f = refl
run-bind answers d (look k) f = run-bind answers d (k (some d)) f
run-bind answers d (write w k) f = run-bind answers (w d).1 (k (w d).0) f
run-bind answers d (call c k) f = run-bind answers d (k (answers c)) f
run-bind answers d (notify n p) f = run-bind answers d p f

-- what the first part leads to may be used in the second
pub carry_over :
    {A B : Type 0} (P : A → Db → Type 0) (Q : B → Db → Type 0) (d : Db) (p : Proc A)
    (f : A → Proc B)
    → Leads P d p
    → ((a : A) (m : Db) → P a m → Leads Q m (f a))
    → Leads Q d (bind p f)
carry_over P Q d (done a) f h g = g a d h
carry_over P Q d (look k) f h g = carry_over P Q d (k (some d)) f h g
carry_over P Q d (write w k) f h g = carry_over P Q (w d).1 (k (w d).0) f h g
carry_over P Q d (call c k) f h g = λ r. carry_over P Q d (k r) f (h r) g
carry_over P Q d (notify n p) f h g = carry_over P Q d p f h g

pub weaker :
    {A : Type 0} (P Q : A → Db → Type 0) (d : Db) (p : Proc A)
    → ((a : A) (e : Db) → P a e → Q a e)
    → Leads P d p
    → Leads Q d p
weaker P Q d (done a) f h = f a d h
weaker P Q d (look k) f h = weaker P Q d (k (some d)) f h
weaker P Q d (write w k) f h = weaker P Q (w d).1 (k (w d).0) f h
weaker P Q d (call c k) f h = λ r. weaker P Q d (k r) f (h r)
weaker P Q d (notify n p) f h = weaker P Q d p f h

-- A process that writes nothing leaves the database as it was.
pub quiet :
    {A : Type 0} (C : Call → Type 0) (d : Db) (p : Proc A)
    → Safe (λ R w. ⊥) C p
    → Leads (λ a e. e ≡ d) d p
quiet C d (done a) h = refl
quiet C d (look k) h = quiet C d (k (some d)) (h (some d))
quiet C d (write w k) h = absurd (h.0)
quiet C d (call c k) h = λ r. quiet C d (k r) (h.1 r)
quiet C d (notify n p) h = quiet C d p h
