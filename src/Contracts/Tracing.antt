-- ===== src/Contracts/Tracing.antt =====
-- packages/be-core/src/correlation.ts: what the traces of requests are.
use technical_assignment.Contracts.{TraceId, is_uuid, resolve_trace_id}
use technical_assignment.Common.{ℕ, Option, none, some, ◌≡◌, refl, true, Bool-cases, inl, inr}

-- Whatever a client sends, the trace of its request is a UUID.
pub resolve_trace_id-IsUuid :
    (header : Option TraceId) (fresh : ℕ) → is_uuid (resolve_trace_id header fresh) ≡ true
unfolding resolve_trace_id
resolve_trace_id-IsUuid none fresh = refl
resolve_trace_id-IsUuid (some h) fresh = elim (Bool-cases (is_uuid h)) [
  | inl good ↦ rw good good
  | inr bad ↦ rw bad refl
]
