-- ===== src/Server/Core/Audit.antt =====
-- What `audit_op` of server/core.py adds to an operation.
use pabel.Base.{◌≡◌, sym, ◌∙◌, ◌&&◌, Bool, true, false, Option, List, [], ◌∷◌, ◌++◌, arith}
use mathlib.Core.List.{append-nil}
use pabel.Base.{Text, codes, if◌then◌else◌}
use pabel.Base.Exec.{Result, ok, err}
use pabel.Server.{Failure, runtime_error, foreign, Services, World, Service, AuditRecord, Operation}
use pabel.Server.Core.{audit, audit_op, record_of, blank}

-- a record where the store took it
abbrev pub kept : Bool → AuditRecord → List AuditRecord
kept stored entry = if stored then entry ∷ [] else []

-- where the audit of a world is written to: the file, and then the table
abbrev pub file_takes : (S : Services) → World S → Bool
file_takes S w = (S.can_append w.outside).0

abbrev pub table_takes : (S : Services) → World S → Bool
table_takes S w = S.has_dsn && (S.db_up (S.can_append w.outside).1).0

-- what escapes from an audit without PABEL_DB_DSN, in place of the outcome
abbrev pub outcome_of : (S : Services) {A : Type 0} → Result Failure A → Result Failure A
outcome_of S r =
    if S.has_dsn then r else err (runtime_error (foreign (codes "missing environment variable(s)")))

-- the world in which the body ran, and what it left
abbrev pub body_run :
    (S : Services) {A : Type 0} → Service S A → World S → Result Failure A × World S
body_run S body w = body (record w { ctx = blank })

module _ (S : Services) where
  pub audit-adds :
      (entry : AuditRecord) (w : World S)
      → ((audit S entry w).0 ≡ outcome_of S (ok tt))
        × ((audit S entry w).1.audit_file ≡ w.audit_file ++ kept (file_takes S w) entry)
        × ((audit S entry w).1.db.audit_log ≡ w.db.audit_log ++ kept (table_takes S w) entry)
  unfolding audit
  audit-adds entry w = ground (arith, append-nil w.audit_file, append-nil w.db.audit_log)

set_dsn :
    {A : Type 0} (b : Bool) (r : Result Failure A) (e : Failure) (a : A)
    → (if b then r else err e) ≡ ok a
    → r ≡ ok a
set_dsn true r e a h = h
set_dsn false r e a h = cc

module _ (S : Services) {A : Type 0} (operation : Operation) (path : Option Text)
    (body : Service S A) (w : World S) where
  -- Where PABEL_DB_DSN is set, the operation's outcome, a failure included, is the body's; where it is
  -- not, the outcome is the RuntimeError that says so, whatever the body's was. In both cases the
  -- body's record is the one entry that is added to audit.jsonl and to the audit_log table, as far as
  -- each takes it, and the table takes none without the variable.
  pub audit_op-record :
      ((audit_op S operation path body w).0 ≡ outcome_of S (body_run S body w).0)
      × ((audit_op S operation path body w).1.audit_file
          ≡ (body_run S body w).1.audit_file
            ++ kept
                (file_takes S (body_run S body w).1)
                (record_of operation path (body_run S body w).1.ctx (body_run S body w).0))
      × ((audit_op S operation path body w).1.db.audit_log
          ≡ (body_run S body w).1.db.audit_log
            ++ kept
                (table_takes S (body_run S body w).1)
                (record_of operation path (body_run S body w).1.ctx (body_run S body w).0))
  unfolding audit_op
  audit_op-record =
      let entry = record_of operation path (body_run S body w).1.ctx (body_run S body w).0 in
      let a = audit-adds S entry (body_run S body w).1 in ground (arith, a)

-- an operation that gives a result gives the body's
pub audit_op-ok :
    (S : Services) {A : Type 0} (operation : Operation) (path : Option Text) (body : Service S A)
    (w : World S) (a : A)
    → (audit_op S operation path body w).0 ≡ ok a
    → (body_run S body w).0 ≡ ok a
audit_op-ok S operation path body w a h =
    set_dsn S.has_dsn (body_run S body w).0 _ a
      (sym (audit_op-record S operation path body w).0 ∙ h)
