-- ===== src/Audit/Redact.antt =====
-- Redaction (src/dsa_operator/audit/log.py, `redact`): what a record holds before it is written.
-- `scrub` is `_redact_str`, the four regular-expression substitutions, and `lower` is Python's
-- `str.lower`.
pub mod Clean
use text.Mathlib.Text.{find?}
use dsa110_operator.Prelude.{
  String, Bool, true, false, Option, none, some, List, [], ◌∷◌, any, if◌then◌else◌,
}
use dsa110_operator.Value.{
  Value, null, bool, int, float, str, arr, obj, Items, nil, item, Fields, end, field,
}

pub record Scrubber : Type 0 where
  pub scrub : String → String
  pub lower : String → String

abbrev pub redacted : String
redacted = "***REDACTED***"

abbrev pub sensitive_key_parts : List String
sensitive_key_parts =
    "token" ∷ "secret" ∷ "password" ∷ "passwd" ∷ "api_key" ∷ "apikey" ∷ "authorization"
    ∷ "auth_header" ∷ "private_key" ∷ "client_secret" ∷ "bearer" ∷ "cookie" ∷ "session" ∷ []

-- part in s
abbrev occurs : String → String → Bool
occurs s part = elim (find? s part) [ none ↦ false | some i ↦ true ]

unfoldable pub is_sensitive : Scrubber → String → Bool
is_sensitive c key = any (occurs (c.lower key)) sensitive_key_parts

module _ (c : Scrubber) where
  unfoldable mutual
    pub redact : Value → Value
    redact (str s) = str (c.scrub s)
    redact (arr vs) = arr (redact_items vs)
    redact (obj d) = obj (redact_fields d)
    redact null = null
    redact (bool b) = bool b
    redact (int n) = int n
    redact (float x) = float x

    pub redact_items : Items → Items
    redact_items nil = nil
    redact_items (item v vs) = item (redact v) (redact_items vs)

    pub redact_fields : Fields → Fields
    redact_fields end = end
    redact_fields (field k v d) =
        field k (if is_sensitive c k then str redacted else redact v) (redact_fields d)
