-- ===== src/Payment/Checkout/Charged.antt =====
-- A checkout inserts an intent at the price of its seat, and its look-ups only read.
use technical_assignment.Payment.Charges.{IsCharged, IsPricedBy}
use technical_assignment.Common.Growth.{run_query-keeps}
use technical_assignment.Payment.Db.{Db, PaymentIntentRow, SeatPrice, with_key}
use technical_assignment.Payment.Breaker.{Env, Breaker, Call}
use technical_assignment.Payment.Intents.{
  create_intent, insert_intent, find_by_idempotency_key, keyed_row, price_row, get_seat_price,
}
use technical_assignment.Payment.Checkout.{
  CheckoutDto, CreateIntentOpts, CreateIntentResult, Run, intent_row, after_race, after_create,
  after_psp, after_price, after_find, checkout,
}
use technical_assignment.Common.{
  ℕ, ◌==◌, ◌⊎◌, ◌∙◌, ap, sym, steady, breaks, unanswered, zero, suc, Option-cases, ◌≡◌, refl, List,
  [], ◌∷◌, ◌++◌, Option, some, none, Result, ok, err, Link, All-append, Bool-cases, inl, inr,
  exists_where, first_row, select, query, rows, run_query, unique_violation, foreign_key_violation,
  rt_not_found, argon2_rejected, connection_lost,
}

pub insert_intent-IsCharged :
    {ps : List SeatPrice} (i : PaymentIntentRow) (l : Link) (d : Db)
    → IsPricedBy ps i
    → IsCharged ps d
    → IsCharged ps (create_intent i l d).1
unfolding create_intent
insert_intent-IsCharged {ps} i l d priced v =
    run_query-keeps (IsCharged ps) (insert_intent i) l d v
      (elim (Bool-cases (exists_where (λ r. r.id == i.id) d.intents)) [
        | inl old ↦ rw old (λ a d' e. absurd (cc))
        | inr new_id ↦ elim (Bool-cases (exists_where (with_key i.idempotency_key) d.intents)) [
          | inl old ↦ rw (new_id, old) (λ a d' e. absurd (cc))
          | inr new_key ↦
              rw (new_id, new_key)
                (λ a d' e.
                  let is : record d { intents = d.intents ++ i ∷ [] } ≡ d' = cc in
                  rw (← is) (record {
                    prices = v.prices;
                    amounts = All-append (IsPricedBy ps) d.intents (i ∷ []) v.amounts (priced, tt);
                  }))
        ]
      ])

-- A look-up that is sent by itself.
read_cases :
    {A : Type 0} (f : Db → A) (l : Link) (d : Db)
    → (run_query (query (λ e. rows (f e) e)) l d ≡ (err connection_lost, d))
      ⊎ (run_query (query (λ e. rows (f e) e)) l d ≡ (ok (f d), d))
read_cases f steady d = inr refl
read_cases f (breaks zero) d = inl refl
read_cases f (breaks (suc n)) d = inr refl
read_cases f (unanswered zero) d = inl refl
read_cases f (unanswered (suc n)) d = inr refl

read_db :
    {A : Type 0} (f : Db → A) (l : Link) (d : Db)
    → (run_query (query (λ e. rows (f e) e)) l d).1 ≡ d
read_db f l d = elim (read_cases f l d) [ inl e ↦ rw e refl | inr e ↦ rw e refl ]

module _ {ps : List SeatPrice} where
  after_race-IsCharged :
      (b : Breaker) (x : Result (Option PaymentIntentRow) × Db)
      → IsCharged ps x.1
      → IsCharged ps (after_race b x).db
  unfolding after_race
  after_race-IsCharged b (ok (some i), d) v = v
  after_race-IsCharged b (ok none, d) v = v
  after_race-IsCharged b (err e, d) v = v

  after_create-IsCharged :
      (dto : CheckoutDto) (r : Run) (b : Breaker) (x : Result PaymentIntentRow × Db)
      → IsCharged ps x.1
      → IsCharged ps (after_create dto r b x).db
  unfolding after_create find_by_idempotency_key
  after_create-IsCharged dto r b (ok i, d) v = v
  after_create-IsCharged dto r b (err (unique_violation c), d) v =
      after_race-IsCharged b (find_by_idempotency_key dto.idempotency_key r.again_link d)
        (rw (read_db (keyed_row dto.idempotency_key) r.again_link d) v)
  after_create-IsCharged dto r b (err foreign_key_violation, d) v = v
  after_create-IsCharged dto r b (err rt_not_found, d) v = v
  after_create-IsCharged dto r b (err argon2_rejected, d) v = v
  after_create-IsCharged dto r b (err connection_lost, d) v = v

  pub after_psp-IsCharged :
      (dto : CheckoutDto) (user : ℕ) (r : Run) {price : SeatPrice}
      (answer : Option CreateIntentResult × Breaker) (d : Db)
      → price_row dto.seat_id d ≡ some price
      → IsCharged ps d
      → IsCharged ps (after_psp dto user r price answer d).db
  unfolding after_psp intent_row
  after_psp-IsCharged dto user r (none, b) d found v = v
  after_psp-IsCharged dto user r {price} (some psp, b) d found v =
      after_create-IsCharged dto r b
        (create_intent (intent_row dto user r price psp) r.create_link d)
        (insert_intent-IsCharged (intent_row dto user r price psp) r.create_link d
          (price, rw (← v.prices) found, refl, refl) v)

-- Where what the others do during the call to the provider keeps the amounts, so does a checkout,
-- over whatever connections, whatever the provider answers and however often.
pub checkout-IsCharged :
    {ps : List SeatPrice} (env : Env) (psp : CreateIntentOpts → Call CreateIntentResult)
    (dto : CheckoutDto) (user : ℕ) (r : Run) (meanwhile : Db → Db) (b : Breaker) (d : Db)
    → IsCharged ps d
    → IsCharged ps (meanwhile d)
    → IsCharged ps (checkout env psp dto user r meanwhile b d).db
unfolding checkout after_find find_by_idempotency_key
checkout-IsCharged env psp dto user r meanwhile b d v w =
    elim (read_cases (keyed_row dto.idempotency_key) r.find_link d) [
      | inl lost ↦ rw lost v
      | inr found ↦ rw found (elim (Option-cases (keyed_row dto.idempotency_key d)) [
        | inl absent ↦ rw absent (
            unfold after_price get_seat_price in
            elim (read_cases (price_row dto.seat_id) r.price_link d) [
              | inl lost ↦ rw lost v
              | inr read ↦ rw read (elim (Option-cases (price_row dto.seat_id d)) [
                | inl unknown ↦ rw unknown v
                | inr (price, known) ↦ rw known (
                    let still : price_row dto.seat_id (meanwhile d) ≡ some price =
                      ap (λ xs. first_row (select (λ p. p.seat_id == dto.seat_id) xs))
                        (w.prices ∙ sym v.prices)
                      ∙ known in
                    after_psp-IsCharged dto user r _ (meanwhile d) still w)
              ])
            ])
        | inr (i, seen) ↦ rw seen v
      ])
    ]
