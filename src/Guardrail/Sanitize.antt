-- ===== src/Guardrail/Sanitize.antt =====
-- context_sanitization.py and intent_check.py. Normal forms of Unicode, the wrapping of injected
-- markers (a substitution by a regular expression), and Python's `lower` and `strip` are arguments.
use Prim.Native.String.{String, [], ◌∷◌}
use big_x.Base.{ℕ, zero, suc, Bool, true, false, Option, none, some, List, any, ltb, if◌then◌else◌}
use big_x.Base.Text.{contains}

pub record Texts : Type 0 where
  pub normalize_nfkc : String → String
  pub wrap_markers : String → String
  pub lower : String → String
  pub strip : String → String

-- `len`, and `text[:n]`
abbrev pub size : String → ℕ
size [] = 0
size (c ∷ s) = suc (size s)

abbrev pub first : ℕ → String → String
first zero s = []
first (suc n) [] = []
first (suc n) (c ∷ s) = c ∷ first n s

-- `_INVISIBLE_CHARS`
abbrev invisible_chars : String
invisible_chars = "\u{200b}\u{200c}\u{200d}\u{2060}\u{feff}"

unfoldable pub strip_invisible_chars : String → String
strip_invisible_chars [] = []
strip_invisible_chars (c ∷ s) =
    let rest = strip_invisible_chars s in
    if contains (c ∷ []) invisible_chars then rest else c ∷ rest

abbrev pub max_message_length : ℕ
max_message_length = 4000

abbrev pub truncate : String → String
truncate text = if ltb max_message_length (size text) then first max_message_length text else text

unfoldable pub sanitize : Texts → String → String
sanitize texts raw_message =
    texts.strip
      (truncate (texts.wrap_markers (strip_invisible_chars (texts.normalize_nfkc raw_message))))

pub data IntentCategory : Type 0 where
  defi_action portfolio_query general_question off_scope suspicious : IntentCategory

pub record IntentResult : Type 0 where
  pub category : IntentCategory
  pub allowed : Bool
  pub reason : Option String

abbrev allowed_as : IntentCategory → IntentResult
allowed_as c = record { category = c; allowed = true; reason = none }

abbrev pub action_keywords : List String
action_keywords = List.◌∷◌ "buy" (
    List.◌∷◌ "sell" (
      List.◌∷◌ "swap" (
        List.◌∷◌ "bridge" (
          List.◌∷◌ "deposit" (
            List.◌∷◌ "withdraw" (List.◌∷◌ "stake" (List.◌∷◌ "farm" (List.◌∷◌ "trade" List.[]))))))))

abbrev pub query_keywords : List String
query_keywords = List.◌∷◌ "balance" (
    List.◌∷◌ "portfolio"
      (List.◌∷◌ "how much" (List.◌∷◌ "what's my" (List.◌∷◌ "show me my" List.[]))))

abbrev pub suspicious_patterns : List String
suspicious_patterns = List.◌∷◌ "ignore previous instructions" (
    List.◌∷◌ "ignore all previous" (
      List.◌∷◌ "disregard your instructions" (
        List.◌∷◌ "you are now"
          (List.◌∷◌ "system prompt" (List.◌∷◌ "reveal your instructions" List.[])))))

unfoldable pub has_any : List String → String → Bool
has_any patterns lowered = any (λ p. contains p lowered) patterns

-- `IntentCheckAgent.check`, without an LLM client, as the service builds it.
unfoldable pub check_intent : Texts → String → IntentResult
check_intent texts user_message =
    let lowered = texts.lower user_message in
    if has_any suspicious_patterns lowered
    then record {
      category = suspicious;
      allowed = false;
      reason = some "Message contains a known prompt-injection pattern";
    }
    else if has_any action_keywords lowered
    then allowed_as defi_action
    else if has_any query_keywords lowered
    then allowed_as portfolio_query
    else allowed_as general_question
