-- ===== src/Common/Postgres.antt =====
-- A connection of the `pg` pool, as the repositories use it: a method takes a client, sends BEGIN,
-- its statements, then COMMIT or ROLLBACK; any error leads to ROLLBACK and is thrown on.
-- The database is a state; what PostgreSQL promises of a transaction (an aborted one has no effect,
-- a failed statement aborts it) is the meaning of these definitions.
use Prim.Native.Nat.{ℕ, zero, suc}

-- How long the connection lasts: for ever, or for `n` more statements. After those the next one does
-- not reach the server, or is executed and its answer is lost.
pub data Link : Type 0 where
  steady : Link
  breaks unanswered : ℕ → Link

-- The constraints of the schemas that a statement can violate.
pub data Constraint : Type 0 where
  primary_key uniq_active_hold_per_seat uniq_active_hold_per_user : Constraint
  idempotency_key email_key token_hash_key : Constraint

-- SQLSTATE 23505 with its constraint, 23503, an `Error` of the code, a rejection of argon2, and a
-- lost connection.
pub data Exn : Type 0 where
  unique_violation : Constraint → Exn
  foreign_key_violation : Exn
  rt_not_found : Exn
  argon2_rejected : Exn
  connection_lost : Exn

-- What the server answers to one statement.
pub data Answer (D A : Type 0) : Type 0 where
  rows : A → D → Answer D A
  violates : Exn → Answer D A

pub data Reply (D A : Type 0) : Type 0 where
  done : A → Link → D → Reply D A
  failed : Exn → Link → Reply D A

abbrev pub Tx : Type 0 → Type 0 → Type 0
Tx D A = Link → D → Reply D A

abbrev pub answer : {D A : Type 0} → Link → Answer D A → Reply D A
answer l (rows a d) = done a l d
answer l (violates e) = failed e l

-- conn.query(…)
abbrev pub query : {D A : Type 0} → (D → Answer D A) → Tx D A
query q steady d = answer steady (q d)
query q (breaks zero) d = failed connection_lost (breaks zero)
query q (breaks (suc n)) d = answer (breaks n) (q d)
query q (unanswered zero) d = failed connection_lost (breaks zero)
query q (unanswered (suc n)) d = answer (unanswered n) (q d)

abbrev pub pure : {D A : Type 0} → A → Tx D A
pure a l d = done a l d

abbrev pub throw : {D A : Type 0} → Exn → Tx D A
throw e l d = failed e l

abbrev pub continue : {D A B : Type 0} → (A → Tx D B) → Reply D A → Reply D B
continue f (done a l d) = f a l d
continue f (failed e l) = failed e l

infixl 5 ◌>>=◌ ◌>>◌
abbrev pub ◌>>=◌ : {D A B : Type 0} → Tx D A → (A → Tx D B) → Tx D B
◌>>=◌ m f l d = continue f (m l d)

abbrev pub ◌>>◌ : {D A B : Type 0} → Tx D A → Tx D B → Tx D B
m >> k = m >>= λ _. k

-- How the body of a transaction ends, with the value that the method returns.
pub data Verdict (A : Type 0) : Type 0 where
  commit : A → Verdict A
  rollback : A → Verdict A

pub data Result (A : Type 0) : Type 0 where
  ok : A → Result A
  err : Exn → Result A

-- COMMIT and ROLLBACK are statements too. When one cannot be sent, or a statement before it has lost
-- its answer, the server rolls back; a COMMIT whose answer is lost is thrown and has taken effect.
abbrev pub finish : {D A : Type 0} → D → Reply D (Verdict A) → Result A × D
finish d (failed e l) = (err e, d)
finish d (done v (breaks zero) d') = (err connection_lost, d)
finish d (done (commit a) (unanswered zero) d') = (err connection_lost, d')
finish d (done (rollback a) (unanswered zero) d') = (err connection_lost, d)
finish d (done (commit a) l d') = (ok a, d')
finish d (done (rollback a) l d') = (ok a, d)

-- try { … } catch (e) { … } inside a transaction. The handler can only roll back, so it is given
-- the state at the start of the block.
abbrev pub handle : {D A : Type 0} → Reply D A → (Exn → Tx D A) → D → Reply D A
handle (done a l d') h d = done a l d'
handle (failed e l) h d = h e l d

abbrev pub catching : {D A : Type 0} → Tx D A → (Exn → Tx D A) → Tx D A
catching m h l d = handle (m l d) h d

abbrev pub begin_tx : {D : Type 0} → Tx D (Unit {0})
begin_tx = query (λ d. rows tt d)

-- One transaction over a client that was just taken from the pool.
abbrev pub run_tx : {D A : Type 0} → Tx D (Verdict A) → Link → D → Result A × D
run_tx body l d = finish d ((begin_tx >>= λ _. body) l d)

-- A single statement outside a transaction, `pool.query(…)`, which commits by itself.
abbrev pub settle : {D A : Type 0} → D → Reply D A → Result A × D
settle d (done a l d') = (ok a, d')
settle d (failed e l) = (err e, d)

abbrev pub run_query : {D A : Type 0} → Tx D A → Link → D → Result A × D
run_query m (unanswered zero) d = (err connection_lost, (settle d (m steady d)).1)
run_query m steady d = settle d (m steady d)
run_query m (breaks n) d = settle d (m (breaks n) d)
run_query m (unanswered (suc n)) d = settle d (m (unanswered (suc n)) d)
