-- ===== src/Payment/Intents/Priced.antt =====
-- The repository's methods leave the prices and the amounts alone.
use technical_assignment.Outbox.{append}
use technical_assignment.Common.Hoare.{
  Ensures, query-Ensures, bind-Ensures, pure-Ensures, run_tx-keeps,
}
use technical_assignment.Payment.Charges.{IsCharged, IsPricedBy}
use technical_assignment.Contracts.{AnyEvent, TraceId}
use technical_assignment.Payment.Db.{Db, PaymentIntentRow, IntentStatus, SeatPrice, settled_row}
use technical_assignment.Payment.Intents.{mark_body, announce, update_intents, append}
use technical_assignment.Common.{
  ℕ, List, Bool, Option, rows, Link, some, run_tx, first_row, none, select, update_where,
  All-update_where,
}

abbrev Any : {A : Type 0} → A → Type 0
Any a = Unit

module _ {ps : List SeatPrice} where
  announce-Ensures :
      (st : IntentStatus) (event : PaymentIntentRow → AnyEvent) (trace : TraceId) (now : ℕ)
      (found : Option PaymentIntentRow)
      → Ensures (IsCharged ps) Any (announce st event trace now found)
  unfolding announce
  announce-Ensures st event trace now none = pure-Ensures (IsCharged ps) Any _ tt
  announce-Ensures st event trace now (some i) =
      bind-Ensures (IsCharged ps) Any Any _ _
        (query-Ensures (IsCharged ps) Any
          (λ d. rows tt (record d {
            outbox =
                append i.id (event i)
                  (record { trace_id = trace; user_id = some i.user_id; reason = none }) now
                  d.outbox;
          }))
          (λ d v. (record { prices = v.prices; amounts = v.amounts }, tt)))
        (λ t k. pure-Ensures (IsCharged ps) Any _ tt)

  update_intents-Ensures :
      (p : PaymentIntentRow → Bool) (st : IntentStatus) (now : ℕ)
      → Ensures (IsCharged ps) Any (update_intents p st now)
  update_intents-Ensures p st now =
      query-Ensures (IsCharged ps) Any
        (λ d.
          rows (first_row (select p d.intents))
            (record d { intents = update_where p (settled_row st now) d.intents }))
        (λ d v. (
          record {
            prices = v.prices;
            amounts =
                All-update_where (IsPricedBy ps) (IsPricedBy ps) p (settled_row st now) d.intents
                  (λ i h e. h) (λ i h e. h) v.amounts;
          },
          tt,
        ))

  pub mark_body-IsCharged :
      (p : PaymentIntentRow → Bool) (st : IntentStatus) (event : PaymentIntentRow → AnyEvent)
      (trace : TraceId) (now : ℕ) (l : Link) (d : Db)
      → IsCharged ps d
      → IsCharged ps (run_tx (mark_body p st event trace now) l d).1
  unfolding mark_body
  mark_body-IsCharged p st event trace now l d =
      run_tx-keeps (IsCharged ps) Any (mark_body p st event trace now) l d (
        bind-Ensures (IsCharged ps) Any Any _ _ (update_intents-Ensures p st now)
          (λ found k. announce-Ensures st event trace now found))
