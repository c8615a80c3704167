-- ===== src/Payment/Checkout/Keys.antt =====
-- What the idempotency key of a checkout is worth.
use technical_assignment.Payment.Db.{Db, PaymentIntentRow, SeatPrice, with_key}
use technical_assignment.Payment.Breaker.{Env, Call, Breaker, exec}
use technical_assignment.Payment.Intents.{
  find_by_idempotency_key, get_seat_price, create_intent, keyed_row, price_row,
}
use technical_assignment.Common.{
  Bool-cases, inl, inr, ◌≡◌, refl, steady, ℕ, none, some, true, exists_where, ◌==◌, false, ◌++◌,
  ◌∷◌, [], first_row-select-exists, exists_where-none, first_row-select-last, ==_refl,
}
use technical_assignment.Payment.Checkout.{
  CheckoutDto, checkout, Run, find_by_idempotency_key, get_seat_price, Env, CreateIntentOpts,
  create_intent, CreateIntentResult, Db, SeatPrice, PaymentIntentRow, intent_200, body_of, opts_of,
  intent_row,
}

-- All four queries go over connections that hold.
abbrev pub IsSteady : Run → Type 0
IsSteady r =
    (r.find_link ≡ steady)
    × (r.price_link ≡ steady)
    × (r.create_link ≡ steady)
    × (r.again_link ≡ steady)

-- A key that an intent has already is answered with that intent, whoever asks and for whatever
-- seat: the provider is not called, and neither the database nor the breaker changes.
known_key_is_answered :
    (env : Env) (psp : CreateIntentOpts → Call CreateIntentResult) (dto : CheckoutDto) (user : ℕ)
    (r : Run) (meanwhile : Db → Db) (b : Breaker) (d : Db) {i : PaymentIntentRow}
    → IsSteady r
    → keyed_row dto.idempotency_key d ≡ some i
    → checkout env psp dto user r meanwhile b d
      ≡ record { response = intent_200 (body_of i true); db = d; breaker = b }
unfolding checkout find_by_idempotency_key
known_key_is_answered env psp dto user r meanwhile b d hs known = rw (hs.0, known) refl

-- Over steady connections, a key and an id that no intent has, a priced seat and a provider that
-- answers while the breaker lets the call through make one pending intent, at the price of the
-- seat's row and with the provider's id; a second request with the key, by whatever user, is
-- answered with that intent, changes nothing, and says that it is a repetition.
pub checkout_once :
    (env env' : Env) (psp psp' : CreateIntentOpts → Call CreateIntentResult)
    (dto dto' : CheckoutDto) (user user' : ℕ) (r r' : Run) (meanwhile' : Db → Db) (b b' : Breaker)
    (d : Db) {price : SeatPrice} {made : CreateIntentResult}
    → IsSteady r
    → IsSteady r'
    → keyed_row dto.idempotency_key d ≡ none
    → price_row dto.seat_id d ≡ some price
    → (exec env r.called_at r.answered_at (psp (opts_of dto price)) b).0 ≡ some made
    → exists_where (λ i. i.id == r.intent_id) d.intents ≡ false
    → dto'.idempotency_key ≡ dto.idempotency_key
    → let row = intent_row dto user r price made in
      let first = checkout env psp dto user r (λ x. x) b d in
      (first.response ≡ intent_200 (body_of row false))
      × (first.db.intents ≡ d.intents ++ row ∷ [])
      × (checkout env' psp' dto' user' r' meanwhile' b' first.db
          ≡ record { response = intent_200 (body_of row true); db = first.db; breaker = b' })
unfolding checkout find_by_idempotency_key get_seat_price create_intent
checkout_once env env' psp psp' dto dto' user user' r r' meanwhile' b b' d {price} {made} hs hs'
      fresh priced answers new_id same_key =
    rw
      (
        hs.0,
        hs.1,
        hs.2,
        hs'.0,
        fresh,
        priced,
        answers,
        new_id,
        same_key,
        exists_where-none (with_key dto.idempotency_key) d.intents fresh,
      )
      (
        refl,
        refl,
        rw
            (first_row-select-last (with_key dto.idempotency_key) d.intents
              (intent_row dto user r price made) fresh
              (unfold intent_row in ==_refl dto.idempotency_key))
            refl,
      )

-- Over steady connections, with a key that no intent had, a known price and a provider that
-- answers, where a concurrent request has inserted an intent with the key during the call to the
-- provider, the unique key stops the second intent: the answer is the intent of the other request,
-- and what the database holds is what the other requests have left.
pub race_is_answered :
    (env : Env) (psp : CreateIntentOpts → Call CreateIntentResult) (dto : CheckoutDto) (user : ℕ)
    (r : Run) (meanwhile : Db → Db) (b : Breaker) (d : Db) {price : SeatPrice}
    {made : CreateIntentResult} {i : PaymentIntentRow}
    → IsSteady r
    → keyed_row dto.idempotency_key d ≡ none
    → price_row dto.seat_id d ≡ some price
    → (exec env r.called_at r.answered_at (psp (opts_of dto price)) b).0 ≡ some made
    → keyed_row dto.idempotency_key (meanwhile d) ≡ some i
    → let out = checkout env psp dto user r meanwhile b d in
      (out.response ≡ intent_200 (body_of i true)) × (out.db ≡ meanwhile d)
unfolding checkout find_by_idempotency_key get_seat_price create_intent
race_is_answered env psp dto user r meanwhile b d {price} {made} {i} hs fresh priced answers raced =
    rw
      (
        hs.0,
        hs.1,
        hs.2,
        hs.3,
        fresh,
        priced,
        answers,
        first_row-select-exists (with_key dto.idempotency_key) (meanwhile d).intents raced,
      )
      (elim (Bool-cases (exists_where (λ i. i.id == r.intent_id) (meanwhile d).intents)) [
        | inl e ↦ unfold intent_row in rw (e, raced) (refl, refl)
        | inr e ↦ unfold intent_row in rw (e, raced) (refl, refl)
      ])
