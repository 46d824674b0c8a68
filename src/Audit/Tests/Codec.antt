-- ===== src/Audit/Tests/Codec.antt =====
-- The records of the audit trail in the text format of the test data.
use timelakedb.Base.{ℕ, refl, Option}
use timelakedb.Base.Str.{Str}
use timelakedb.Base.Codec.{Code, number, text, option, both, made_of}
use timelakedb.Audit.Record.{HashInput, AuditRecord}

abbrev Texts : Type 0
Texts = (Str × Str) × (Str × Str)

abbrev texts : Code Texts
texts = both (both text text) (both text text)

abbrev Options : Type 0
Options = Option Str × (Option Str × Option Str)

abbrev options : Code Options
options = both (option text) (both (option text) (option text))

abbrev Parts : Type 0
Parts = (ℕ × Texts) × ((Options × Options) × (Str × (Str × Str)))

abbrev make_input : (ℕ × Texts) × ((Options × Options) × (Str × (Str × Str))) → HashInput
make_input
      (
        (seq, ((ts, node), (principal, role))),
        (
          ((session, (source, request_id)), (target, (before, after))),
          (action, (outcome, prev_hash)),
        ),
      ) =
    record {
      seq = seq;
      ts = ts;
      node = node;
      principal = principal;
      role = role;
      session = session;
      source = source;
      request_id = request_id;
      action = action;
      target = target;
      before = before;
      after = after;
      outcome = outcome;
      prev_hash = prev_hash;
    }

abbrev input_parts : HashInput → (ℕ × Texts) × ((Options × Options) × (Str × (Str × Str)))
input_parts i = (
  (i.seq, ((i.ts, i.node), (i.principal, i.role))),
  (
    ((i.session, (i.source, i.request_id)), (i.target, (i.before, i.after))),
    (i.action, (i.outcome, i.prev_hash)),
  ),
)

abbrev pub input : Code HashInput
input =
    made_of (both (both number texts) (both (both options options) (both text (both text text))))
      make_input input_parts (λ r. refl)

abbrev make_record : HashInput × Str → AuditRecord
make_record (i, hash) = record { input = i; hash = hash }

abbrev pub entry : Code AuditRecord
entry = made_of (both input text) make_record (λ r. (r.input, r.hash)) (λ r. refl)
