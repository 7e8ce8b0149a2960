-- ===== src/Gateway.antt =====
-- The bKash gateway as the payment services see it: internal/service/gateway.go. bKash itself and
-- Go's strconv.ParseFloat are a parameter: its answers during one call of a service.
use Prim.Native.String.{String}
use text.Mathlib.Text.{◌==◌ as str_eq}
use campusassistant_api.Base.{ℕ, ℤ, Bool, false, if◌then◌else◌, Option, none}

-- `ExecutePaymentResult`, with its JSON text.
pub record ExecuteResult : Type 0 where
  pub transaction_status : String
  pub trx_id : String
  pub amount : String
  pub raw : String

-- An answer of bKash, or a call that failed.
pub data Reply : Type 0 where
  failed : Reply
  answered : ExecuteResult → Reply

pub data Session : Type 0 where
  refused : Session
  opened : String → Session

-- `parse_amount` is ParseFloat followed by `int(f + 0.5)`; `none` when the text is no number.
pub record Gateway : Type 0 where
  pub create_payment : ℤ → Session
  pub execute_payment : String → Reply
  pub query_payment : String → Reply
  pub parse_amount : String → Option ℤ

-- `TransactionStatus == bkashCompleted`
abbrev pub is_confirmed : ExecuteResult → Bool
is_confirmed r = str_eq r.transaction_status "Completed"

unfoldable pub paid_amount : Gateway → ExecuteResult → Option ℤ
paid_amount g r = if str_eq r.amount "" then none else g.parse_amount r.amount

abbrev pub reply_confirms : Reply → Bool
reply_confirms failed = false
reply_confirms (answered r) = is_confirmed r

-- Execute, and ask for the real state unless that confirmed the payment.
unfoldable pub settle_reply : Gateway → String → Reply
settle_reply g payment_id =
    if reply_confirms (g.execute_payment payment_id)
    then g.execute_payment payment_id
    else (if reply_confirms (g.query_payment payment_id)
        then g.query_payment payment_id
        else g.execute_payment payment_id)

-- `ReconcileStats`
pub record ReconcileStats : Type 0 where
  pub checked : ℕ
  pub recovered : ℕ
  pub cancelled : ℕ
  pub errors : ℕ

abbrev pub no_stats : ReconcileStats
no_stats = record { checked = 0; recovered = 0; cancelled = 0; errors = 0 }
