-- ===== src/Journal/Submit/Verdict.antt =====
-- What `Db::submit_atomically` (crates/barista-node-agent/src/db.rs) does in each of its results.
use barista_sh.Base.{Option, none, some, ◌≡◌, refl}
use barista_sh.Base.Int.{ℤ}
use barista_sh.Contract.{InstanceState}
use barista_sh.Journal.Rows.{Journal, Submission}
use barista_sh.Journal.Tx.{Outcome, proceeds, rolls_back, faults}
use barista_sh.Journal.Submit.{Request, submission, settle, submit_atomically}
use barista_sh.Journal.Submit.Accepted.{Accepted, accepted}
use barista_sh.Journal.Submit.Refused.{Explains, refused}

-- What a submission returned, and the journal it left.
abbrev pub Verdict : Request → ℤ → ℤ → Journal → Option Submission → Journal → Type 0
Verdict q t now j none k = (k ≡ j)
Verdict q t now j (some (Submission.journaled s)) k = Accepted q t now j s k
Verdict q t now j (some v) k = (k ≡ j) × Explains q t j v

settled :
    (q : Request) (t now : ℤ) (j : Journal) (o : Outcome InstanceState)
    → submission q t now j ≡ o
    → Verdict q t now j (settle o j).0 (settle o j).1
settled q t now j (proceeds s k) e = accepted q t now j k s e
settled q t now j (rolls_back (Submission.journaled s)) e =
    absurd (refused q t now j (Submission.journaled s) e)
settled q t now j (rolls_back (Submission.replay o)) e =
    (refl, refused q t now j (Submission.replay o) e)
settled q t now j (rolls_back Submission.conflict) e =
    (refl, refused q t now j Submission.conflict e)
settled q t now j (rolls_back Submission.rejected) e =
    (refl, refused q t now j Submission.rejected e)
settled q t now j (rolls_back Submission.claim_superseded) e =
    (refl, refused q t now j Submission.claim_superseded e)
settled q t now j faults e = refl

-- A submission that is journaled had a fresh key, no operation whose executor still owns the
-- instance, and a legal plan; it consumed exactly the deadline it claims, which was the one
-- observed and due, queued the operation as active, and wrote the created or moved instance. Every
-- other result leaves the journal as it was: a replay hands back the operation that has the key, a
-- conflict has an active operation on the instance, a rejection an instance that exists, is absent
-- or has no legal plan, and a superseded claim a deadline that is not the one observed and due.
pub submit-Verdict :
    (q : Request) (t now : ℤ) (j : Journal)
    → Verdict q t now j (submit_atomically q t now j).0 (submit_atomically q t now j).1
unfolding submit_atomically
submit-Verdict q t now j = settled q t now j (submission q t now j) refl
