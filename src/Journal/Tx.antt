-- ===== src/Journal/Tx.antt =====
-- The transaction of `Db::submit_atomically` (crates/barista-node-agent/src/db.rs) as a monad: a
-- body goes on with a value and the journal it has written so far, rolls back with a verdict, or
-- fails, which drops the transaction.
use barista_sh.Base.{◌≡◌, refl}
use barista_sh.Journal.Rows.{Journal, Submission}

pub data Outcome (A : Type 0) : Type 0 where
  proceeds : A → Journal → Outcome A
  rolls_back : Submission → Outcome A
  faults : Outcome A

abbrev pub Tx : Type 0 → Type 0
Tx A = Journal → Outcome A

abbrev pub pure : {A : Type 0} → A → Tx A
pure a j = proceeds a j

abbrev pub roll_back : {A : Type 0} → Submission → Tx A
roll_back s j = rolls_back s

abbrev pub fault : {A : Type 0} → Tx A
fault j = faults

-- The journal as the transaction sees it, and a write.
abbrev pub current : Tx Journal
current j = proceeds j j

abbrev pub become : Journal → Tx (Unit {0})
become k j = proceeds tt k

abbrev pub after : {A B : Type 0} → Outcome A → (A → Tx B) → Outcome B
after (proceeds a j) f = f a j
after (rolls_back s) f = rolls_back s
after faults f = faults

infixl 20 ◌>>=◌ ◌>>◌
abbrev pub ◌>>=◌ : {A B : Type 0} → Tx A → (A → Tx B) → Tx B
(m >>= f) j = after (m j) f

abbrev pub ◌>>◌ : {A : Type 0} {B : Type 0} → Tx A → Tx B → Tx B
(m >> n) j = after (m j) (λ a. n)

-- A body that goes on went on at each of its steps.
pub after-proceeds :
    {A B : Type 0} (o : Outcome A) (f : A → Tx B) (b : B) (k : Journal)
    → after o f ≡ proceeds b k
    → (a : A) × (j : Journal) × (o ≡ proceeds a j) × (f a j ≡ proceeds b k)
after-proceeds (proceeds a j) f b k e = (a, j, refl, e)
after-proceeds (rolls_back s) f b k e = absurd cc
after-proceeds faults f b k e = absurd cc
