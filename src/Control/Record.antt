-- ===== src/Control/Record.antt =====
-- Every decision that is returned is on record.
use aerarium_agentic_banking.Common.{
  ℕ, ◌≡◌, refl, inl, inr, Option, List, ◌∷◌, Result, ok, err, Bool-cases,
}
use aerarium_agentic_banking.Control.{
  Request, Decision, ControlError, TransferPolicy, Entry, entry, evidence_of, Database, next_fault,
  record_decision, after_record, after_evaluate, evaluate, decide,
}

-- What a decision leaves on record: exactly one entry if it is returned, and none if it is not.
abbrev pub OnRecord : Request → List Entry → ℕ → Result ControlError Decision → List Entry → Type 0
OnRecord req l now (ok d) l' =
    l' ≡ entry now req d.level d.outcome d.reason (evidence_of req.grant) ∷ l
OnRecord req l now (err _) l' = l' ≡ l

after_record-OnRecord :
    (req : Request) (d : Decision) (db : Database)
    → let (r, db') =
        after_record d
          (record_decision req d.level d.outcome d.reason (evidence_of req.grant) db) in
      OnRecord req db.decisions db.now r db'.decisions
unfolding record_decision after_record
after_record-OnRecord req d db = elim (Bool-cases (next_fault db.faults)) [
  | inl fails ↦ rw fails refl
  | inr works ↦ rw works refl
]

after_evaluate-OnRecord :
    (req : Request) (o : Result ControlError Decision) (db : Database)
    → let (r, db') = after_evaluate req o db in OnRecord req db.decisions db.now r db'.decisions
unfolding after_evaluate
after_evaluate-OnRecord req (ok d) db = after_record-OnRecord req d db
after_evaluate-OnRecord req (err e) db = refl

-- A decision that is returned has been put on record, as one entry for the request with the
-- decision's level, outcome and reason and the grant as its evidence; when no decision is returned,
-- nothing has.
pub decide-OnRecord :
    (transfers : Option TransferPolicy) (now : ℕ) (req : Request) (db : Database)
    → let (r, db') = decide transfers now req db in OnRecord req db.decisions db.now r db'.decisions
unfolding decide
decide-OnRecord transfers now req db = after_evaluate-OnRecord req (evaluate transfers now req) db
