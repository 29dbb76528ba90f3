-- ===== src/Guardrail/Laws.antt =====
-- Proofs about the guardrail's verdict.
use Prim.Native.String.{String, [], ◌∷◌}
use big_x.Base.{ℕ, zero, suc, ◌-◌, ◌≤◌, ◌≡◌, arith, Bool, none, some, List, leb, if◌then◌else◌}
use big_x.Base.Exec.{ok, err}
use big_x.Guardrail.Sanitize.{
  Texts, size, first, truncate, strip_invisible_chars, sanitize, check_intent, has_any,
  suspicious_patterns, max_message_length,
}
use big_x.Guardrail.Checks.{
  Call, zremrangebyscore, zcard, zadd, expire, Trace, Env, is_repetitive, check_repeated_content,
  rate_key, max_requests_per_window, blocked, fine, check_rate_limit, check_abuse, check_policy,
  no_context_manager, blocked_response, check_guardrails,
}

size-first_le : (n : ℕ) (s : String) → size (first n s) ≤ n
size-first_le zero s = omega arith
size-first_le (suc n) [] = omega arith
size-first_le (suc n) (c ∷ s) = omega (arith, size-first_le n s)

size-truncate_le : (s : String) → size (truncate s) ≤ max_message_length
size-truncate_le s = ground (arith, size-first_le max_message_length s)

-- If `strip` lengthens no text, a sanitized message has at most 4000 characters.
pub size-sanitize_le :
    (texts : Texts) (raw_message : String)
    → ((s : String) → size (texts.strip s) ≤ size s)
    → size (sanitize texts raw_message) ≤ max_message_length
unfolding sanitize
size-sanitize_le texts raw_message shorter =
    let marked = texts.wrap_markers (strip_invisible_chars (texts.normalize_nfkc raw_message)) in
    omega (arith, shorter (truncate marked), size-truncate_le marked)

-- The log when the requests before the window have been removed, and how many are left.
abbrev pub cleared : Env → String → Trace → Trace
cleared env agent_id tr = List.◌∷◌ (zremrangebyscore (rate_key agent_id) 0 (env.now tr - 60)) tr

abbrev pub requests : Env → String → Trace → ℕ
requests env agent_id tr = env.count (cleared env agent_id tr) (rate_key agent_id)

abbrev pub counted : Env → String → Trace → Trace
counted env agent_id tr = List.◌∷◌ (zcard (rate_key agent_id)) (cleared env agent_id tr)

abbrev pub added : Env → String → Trace → Trace
added env agent_id tr =
    List.◌∷◌ (zadd (rate_key agent_id) (env.now tr, requests env agent_id tr) (env.now tr))
      (counted env agent_id tr)

abbrev pub registered : Env → String → Trace → Trace
registered env agent_id tr = List.◌∷◌ (expire (rate_key agent_id) 60) (added env agent_id tr)

module _ (env : Env) (agent_id : String) (tr : Trace) where
  abbrev exceeded : Bool
  exceeded = leb max_requests_per_window (requests env agent_id tr)

  check_rate_limit-answered :
      ((s : Trace) (c : Call) → env.fails s c ≡ none)
      → check_rate_limit env agent_id tr ≡ (
          if exceeded
          then (ok (blocked "Too many requests — please slow down"), counted env agent_id tr)
          else (ok fine, registered env agent_id tr))
  unfolding check_rate_limit
  check_rate_limit-answered answers = ground (
    arith,
    answers tr (zremrangebyscore (rate_key agent_id) 0 (env.now tr - 60)),
    answers (cleared env agent_id tr) (zcard (rate_key agent_id)),
    answers (counted env agent_id tr)
        (zadd (rate_key agent_id) (env.now tr, requests env agent_id tr) (env.now tr)),
    answers (added env agent_id tr) (expire (rate_key agent_id) 60),
  )

-- While Redis answers, the endpoint never allows a message. One with a suspicious pattern is blocked for
-- its intent; then one of an agent with 20 requests or more left in the window, for their number; then
-- a repetitive one; and for any other message the endpoint raises, since the policy check opens a
-- session with a factory that returns None.
pub check_guardrails_lem :
    (env : Env) (agent_id message : String) (tr : Trace)
    → ((s : Trace) (c : Call) → env.fails s c ≡ none)
    → let sanitized = sanitize env.texts message in
      (check_guardrails env agent_id message tr).0 ≡ (
        if has_any suspicious_patterns (env.texts.lower sanitized)
        then ok (blocked_response (some "Message contains a known prompt-injection pattern"))
        else if leb max_requests_per_window (requests env agent_id tr)
        then ok (blocked_response (some "Too many requests — please slow down"))
        else if is_repetitive env sanitized
        then ok (blocked_response (some "Message flagged as low-quality/repetitive content"))
        else err no_context_manager)
unfolding check_guardrails check_intent check_abuse check_repeated_content check_policy
check_guardrails_lem env agent_id message tr answers =
    ground (arith, check_rate_limit-answered env agent_id tr answers)
