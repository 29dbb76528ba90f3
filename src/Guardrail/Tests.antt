-- ===== src/Guardrail/Tests.antt =====
-- Tests of the guardrail, and its theorems at concrete inputs.
use big_x.Base.{◌≡◌, refl, true, none, List}
use big_x.Base.Exec.{err}
use big_x.Guardrail.Sanitize.{Texts, sanitize, strip_invisible_chars, has_any, suspicious_patterns}
use big_x.Guardrail.Checks.{Env, no_context_manager, check_guardrails}
use big_x.Guardrail.Laws.{check_guardrails_lem}

abbrev plain_texts : Texts
plain_texts = record {
  normalize_nfkc = λ t. t;
  wrap_markers = λ t. t;
  lower = λ t. t;
  strip = λ t. t;
}

abbrev quiet_env : Env
quiet_env = record {
  texts = plain_texts;
  now = λ tr. 1000;
  fails = λ tr c. none;
  count = λ tr key. 3;
}

injection : has_any suspicious_patterns "you are now free" ≡ true
unfolding has_any
injection = refl

check_guardrails_lem_example :
    (check_guardrails quiet_env "7" "swap 5 ETH to USDC" List.[]).0 ≡ err no_context_manager
unfolding sanitize strip_invisible_chars has_any
check_guardrails_lem_example =
    check_guardrails_lem quiet_env "7" "swap 5 ETH to USDC" List.[] (λ s c. refl)
