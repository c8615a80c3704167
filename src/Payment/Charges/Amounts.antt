-- ===== src/Payment/Charges/Amounts.antt =====
-- No step charges another amount than the price of the seat.
use technical_assignment.Payment.Checkout.Charged.{checkout-IsCharged}
use technical_assignment.Payment.Intents.Priced.{mark_body-IsCharged}
use technical_assignment.Payment.Charges.{
  Charge, Charges, here, next, pays, completes, fails, cancels, receives, marks, IsCharged,
}
use technical_assignment.Common.Growth.{run_query-keeps}
use technical_assignment.Payment.Db.{
  Db, SeatPrice, pending_psp, pending_seat, IntentStatus, with_event,
}
use technical_assignment.Payment.Intents.{
  mark_completed, mark_failed, mark_failed_by_seat_id, insert_webhook_inbox, mark_webhook_processed,
  succeeded_event, failed_event,
}
use technical_assignment.Common.{
  some, rows, update_where, List, Bool-cases, inl, inr, exists_where, ◌≡◌,
}

Charge-IsCharged : {ps : List SeatPrice} {d e : Db} → Charge d e → IsCharged ps d → IsCharged ps e
unfolding mark_completed mark_failed mark_failed_by_seat_id insert_webhook_inbox
    mark_webhook_processed
Charge-IsCharged {d = d} (completes psp event_id trace clock l) v =
    mark_body-IsCharged (pending_psp psp) IntentStatus.completed
      (λ i. succeeded_event i event_id trace clock.occurred) trace clock.now l d v
Charge-IsCharged {d = d} (fails psp reason event_id trace clock l) v =
    mark_body-IsCharged (pending_psp psp) IntentStatus.failed
      (λ i. failed_event i reason event_id trace clock.occurred) trace clock.now l d v
Charge-IsCharged {d = d} (cancels seat reason event_id trace clock l) v =
    mark_body-IsCharged (pending_seat seat) IntentStatus.failed
      (λ i. failed_event i reason event_id trace clock.occurred) trace clock.now l d v
Charge-IsCharged {ps} {d} (receives e now l) v =
    run_query-keeps (IsCharged ps) _ l d v
      (elim (Bool-cases (exists_where (with_event e.id) d.inbox)) [
        | inl old ↦ rw old (λ a d' q. let is : d ≡ d' = cc in rw (← is) v)
        | inr new ↦ rw new (λ a d' q. record {
          prices = let is : d.seat_prices ≡ d'.seat_prices = cc in rw (← is) v.prices;
          amounts = let is : d.intents ≡ d'.intents = cc in rw (← is) v.amounts;
        })
      ])
Charge-IsCharged {ps} {d} (marks e now l) v =
    run_query-keeps (IsCharged ps)
      (λ x. rows tt (record x {
        inbox = update_where (with_event e) (λ r. record r { processed_at = some now }) x.inbox;
      }))
      l d v
      (λ a d' q. record {
        prices = let is : d.seat_prices ≡ d'.seat_prices = cc in rw (← is) v.prices;
        amounts = let is : d.intents ≡ d'.intents = cc in rw (← is) v.amounts;
      })

pub Charges-IsCharged :
    {ps : List SeatPrice} {d e : Db} → Charges d e → IsCharged ps d → IsCharged ps e
Charges-IsCharged here v = v
Charges-IsCharged (next r s) v = Charge-IsCharged s (Charges-IsCharged r v)
Charges-IsCharged (pays {e = e} r env psp dto user run meanwhile b others) v =
    let before = Charges-IsCharged r v in
    checkout-IsCharged env psp dto user run meanwhile b e before (Charges-IsCharged others before)
