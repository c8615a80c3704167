-- ===== src/Common/Hoare.antt =====
-- What a transaction keeps, over any connection: `P` of the database, and `Q` of what a statement
-- reads, as far as it gets.
use Prim.Native.Nat.{zero, suc}
use technical_assignment.Common.Postgres.{
  Link, steady, breaks, unanswered, Exn, Answer, rows, violates, Reply, done, failed, Tx, answer,
  query, pure, throw, continue, ◌>>=◌, handle, catching, Verdict, commit, rollback, finish,
  begin_tx, run_tx,
}

abbrev GoodReply : {D A : Type 0} → (D → Type 0) → (A → Type 0) → Reply D A → Type 0
GoodReply P Q (done a l d) = P d × Q a
GoodReply P Q (failed e l) = Unit

abbrev pub GoodAnswer : {D A : Type 0} → (D → Type 0) → (A → Type 0) → Answer D A → Type 0
GoodAnswer P Q (rows a d) = P d × Q a
GoodAnswer P Q (violates e) = Unit

pub record Ensures {D A : Type 0} (P : D → Type 0) (Q : A → Type 0) (m : Tx D A) : Type 0 where
  pub at : (l : Link) (d : D) → P d → GoodReply P Q (m l d)

module _ {D : Type 0} (P : D → Type 0) where
  answer-Good :
      {A : Type 0} (Q : A → Type 0) (l : Link) (x : Answer D A)
      → GoodAnswer P Q x
      → GoodReply P Q (answer l x)
  answer-Good Q l (rows a d) g = g
  answer-Good Q l (violates e) g = tt

  query_at :
      {A : Type 0} (Q : A → Type 0) (q : D → Answer D A)
      → ((d : D) → P d → GoodAnswer P Q (q d))
      → (l : Link) (d : D) → P d
      → GoodReply P Q (query q l d)
  query_at Q q h steady d p = answer-Good Q steady (q d) (h d p)
  query_at Q q h (breaks zero) d p = tt
  query_at Q q h (breaks (suc n)) d p = answer-Good Q (breaks n) (q d) (h d p)
  query_at Q q h (unanswered zero) d p = tt
  query_at Q q h (unanswered (suc n)) d p = answer-Good Q (unanswered n) (q d) (h d p)

  pub query-Ensures :
      {A : Type 0} (Q : A → Type 0) (q : D → Answer D A)
      → ((d : D) → P d → GoodAnswer P Q (q d))
      → Ensures P Q (query q)
  query-Ensures Q q h = record { at = query_at Q q h }

  pub pure-Ensures : {A : Type 0} (Q : A → Type 0) (a : A) → Q a → Ensures P Q (pure {D = D} a)
  pure-Ensures Q a q = record { at = λ l d p. (p, q) }

  pub throw-Ensures :
      {A : Type 0} (Q : A → Type 0) (e : Exn) → Ensures P Q (throw {D = D} {A = A} e)
  throw-Ensures Q e = record { at = λ l d p. tt }

  continue-Good :
      {A B : Type 0} (Q : A → Type 0) (R : B → Type 0) (f : A → Tx D B)
      → ((a : A) → Q a → Ensures P R (f a))
      → (r : Reply D A) → GoodReply P Q r
      → GoodReply P R (continue f r)
  continue-Good Q R f h (done a l d) g = (h a g.1).at l d g.0
  continue-Good Q R f h (failed e l) g = tt

  pub bind-Ensures :
      {A B : Type 0} (Q : A → Type 0) (R : B → Type 0) (m : Tx D A) (f : A → Tx D B)
      → Ensures P Q m
      → ((a : A) → Q a → Ensures P R (f a))
      → Ensures P R (m >>= f)
  bind-Ensures Q R m f hm hf = record { at = λ l d p. continue-Good Q R f hf (m l d) (hm.at l d p) }

  handle-Good :
      {A : Type 0} (Q : A → Type 0) (h : Exn → Tx D A) (d : D)
      → ((e : Exn) → Ensures P Q (h e))
      → P d
      → (r : Reply D A) → GoodReply P Q r
      → GoodReply P Q (handle r h d)
  handle-Good Q h d k p (done a l d') g = g
  handle-Good Q h d k p (failed e l) g = (k e).at l d p

  pub catching-Ensures :
      {A : Type 0} (Q : A → Type 0) (m : Tx D A) (h : Exn → Tx D A)
      → Ensures P Q m
      → ((e : Exn) → Ensures P Q (h e))
      → Ensures P Q (catching m h)
  catching-Ensures Q m h hm hh = record {
    at = λ l d p. handle-Good Q h d hh p (m l d) (hm.at l d p);
  }

  finish-keeps :
      {A : Type 0} (Q : Verdict A → Type 0) (d : D)
      → P d
      → (r : Reply D (Verdict A)) → GoodReply P Q r
      → P (finish d r).1
  finish-keeps Q d p (failed e l) g = p
  finish-keeps Q d p (done (commit a) steady d') g = g.0
  finish-keeps Q d p (done (commit a) (breaks zero) d') g = p
  finish-keeps Q d p (done (commit a) (breaks (suc n)) d') g = g.0
  finish-keeps Q d p (done (commit a) (unanswered zero) d') g = g.0
  finish-keeps Q d p (done (commit a) (unanswered (suc n)) d') g = g.0
  finish-keeps Q d p (done (rollback a) steady d') g = p
  finish-keeps Q d p (done (rollback a) (breaks zero) d') g = p
  finish-keeps Q d p (done (rollback a) (breaks (suc n)) d') g = p
  finish-keeps Q d p (done (rollback a) (unanswered zero) d') g = p
  finish-keeps Q d p (done (rollback a) (unanswered (suc n)) d') g = p

  pub run_tx-keeps :
      {A : Type 0} (Q : Verdict A → Type 0) (body : Tx D (Verdict A)) (l : Link) (d : D)
      → Ensures P Q body
      → P d
      → P (run_tx body l d).1
  run_tx-keeps Q body l d h p = finish-keeps Q d p ((begin_tx >>= λ _. body) l d) (
      (bind-Ensures (λ u. Unit {0}) Q begin_tx (λ _. body)
          (query-Ensures (λ u. Unit {0}) (λ e. rows tt e) (λ e k. (k, tt))) (λ u k. h)).at
        l d p)
