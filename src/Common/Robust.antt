-- ===== src/Common/Robust.antt =====
-- A transaction on a connection that may break: it either behaves as on a steady one, or loses the
-- connection and leaves the database as it was, or loses the answer to its COMMIT alone.
use mathlib.Core.Path.{◌≡◌, refl}
use mathlib.Core.Logic.{◌⊎◌, inl, inr}
use Prim.Native.Nat.{zero, suc}
use technical_assignment.Common.Postgres.{
  Link, steady, breaks, unanswered, Exn, connection_lost, Answer, rows, violates, Reply, done,
  failed, Tx, answer, query, pure, throw, continue, ◌>>=◌, handle, catching, Verdict, commit,
  rollback, Result, err, finish, begin_tx, run_tx,
}

-- A reply over some link, beside the reply over a steady one.
pub data Agrees {D A : Type 0} : Reply D A → Reply D A → Type 0 where
  same : (a : A) (l : Link) (d : D) → Agrees (done a l d) (done a steady d)
  fails : (e : Exn) (l : Link) → Agrees (failed e l) (failed e steady)
  lost : (l : Link) (r : Reply D A) → Agrees (failed connection_lost l) r

pub record IsRobust {D A : Type 0} (m : Tx D A) : Type 0 where
  pub at : (l : Link) (d : D) → Agrees (m l d) (m steady d)

answer-Agrees : {D A : Type 0} (l : Link) (x : Answer D A) → Agrees (answer l x) (answer steady x)
answer-Agrees l (rows a d) = same a l d
answer-Agrees l (violates e) = fails e l

query_at :
    {D A : Type 0} (q : D → Answer D A) (l : Link) (d : D) → Agrees (query q l d) (query q steady d)
query_at q steady d = answer-Agrees steady (q d)
query_at q (breaks zero) d = lost (breaks zero) (answer steady (q d))
query_at q (breaks (suc n)) d = answer-Agrees (breaks n) (q d)
query_at q (unanswered zero) d = lost (breaks zero) (answer steady (q d))
query_at q (unanswered (suc n)) d = answer-Agrees (unanswered n) (q d)

pub query-IsRobust : {D A : Type 0} (q : D → Answer D A) → IsRobust (query q)
query-IsRobust q = record { at = query_at q }

pub pure-IsRobust : {D A : Type 0} (a : A) → IsRobust (pure {D = D} a)
pure-IsRobust a = record { at = λ l d. same a l d }

pub throw-IsRobust : {D A : Type 0} (e : Exn) → IsRobust (throw {D = D} {A = A} e)
throw-IsRobust e = record { at = λ l d. fails e l }

continue-Agrees :
    {D A B : Type 0} (f : A → Tx D B)
    → ((a : A) → IsRobust (f a))
    → {r s : Reply D A} → Agrees r s
    → Agrees (continue f r) (continue f s)
continue-Agrees f h (same a l d) = (h a).at l d
continue-Agrees f h (fails e l) = fails e l
continue-Agrees f h (lost l r) = lost l (continue f r)

pub bind-IsRobust :
    {D A B : Type 0} (m : Tx D A) (f : A → Tx D B)
    → IsRobust m
    → ((a : A) → IsRobust (f a))
    → IsRobust (m >>= f)
bind-IsRobust m f hm hf = record { at = λ l d. continue-Agrees f hf (hm.at l d) }

handle-Agrees :
    {D A : Type 0} (h : Exn → Tx D A) (d : D)
    → ((e : Exn) → IsRobust (h e))
    → ((l : Link) → h connection_lost l d ≡ failed connection_lost l)
    → {r s : Reply D A} → Agrees r s
    → Agrees (handle r h d) (handle s h d)
handle-Agrees h d hh hl (same a l d') = same a l d'
handle-Agrees h d hh hl (fails e l) = (hh e).at l d
handle-Agrees h d hh hl (lost l r) = rw (hl l) (lost l (handle r h d))

-- The handler throws a lost connection on.
pub catching-IsRobust :
    {D A : Type 0} (m : Tx D A) (h : Exn → Tx D A)
    → IsRobust m
    → ((e : Exn) → IsRobust (h e))
    → ((l : Link) (d : D) → h connection_lost l d ≡ failed connection_lost l)
    → IsRobust (catching m h)
catching-IsRobust m h hm hh hl = record {
  at = λ l d. handle-Agrees h d hh (λ l'. hl l' d) (hm.at l d);
}

pub ruleset robust_rules = (query-IsRobust, pure-IsRobust, throw-IsRobust, bind-IsRobust)

-- The three ways in which a transaction on a link can end: it is lost and has no effect, it took
-- effect and only the answer is lost, or it is as on a steady link.
abbrev pub LostOrSteady : {D A : Type 0} → Result A × D → Result A × D → D → Type 0
LostOrSteady r s d = (r ≡ (err connection_lost, d)) ⊎ ((r ≡ (err connection_lost, s.1)) ⊎ (r ≡ s))

finish-LostOrSteady :
    {D A : Type 0} (d : D) {r s : Reply D (Verdict A)}
    → Agrees r s
    → LostOrSteady (finish d r) (finish d s) d
finish-LostOrSteady d (same (commit a) steady d') = inr (inr refl)
finish-LostOrSteady d (same (commit a) (breaks zero) d') = inl refl
finish-LostOrSteady d (same (commit a) (breaks (suc n)) d') = inr (inr refl)
finish-LostOrSteady d (same (commit a) (unanswered zero) d') = inr (inl refl)
finish-LostOrSteady d (same (commit a) (unanswered (suc n)) d') = inr (inr refl)
finish-LostOrSteady d (same (rollback a) steady d') = inr (inr refl)
finish-LostOrSteady d (same (rollback a) (breaks zero) d') = inl refl
finish-LostOrSteady d (same (rollback a) (breaks (suc n)) d') = inr (inr refl)
finish-LostOrSteady d (same (rollback a) (unanswered zero) d') = inl refl
finish-LostOrSteady d (same (rollback a) (unanswered (suc n)) d') = inr (inr refl)
finish-LostOrSteady d (fails e l) = inr (inr refl)
finish-LostOrSteady d (lost l r) = inl refl

pub run_tx-LostOrSteady :
    {D A : Type 0} (body : Tx D (Verdict A)) (l : Link) (d : D)
    → IsRobust body
    → LostOrSteady (run_tx body l d) (run_tx body steady d) d
run_tx-LostOrSteady body l d h =
    finish-LostOrSteady d
      ((bind-IsRobust begin_tx (λ _. body) (query-IsRobust (λ x. rows tt x)) (λ _. h)).at l d)

-- An operation that loses its connection or acts as on a steady one keeps what the latter keeps.
pub LostOrSteady-keeps :
    {D A : Type 0} (P : D → Type 0) (r s : Result A × D) (d : D)
    → LostOrSteady r s d
    → P d
    → P s.1
    → P r.1
LostOrSteady-keeps P r s d (inl e) before after = rw e before
LostOrSteady-keeps P r s d (inr (inl e)) before after = rw e after
LostOrSteady-keeps P r s d (inr (inr e)) before after = rw e after
