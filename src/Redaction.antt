-- ===== src/Redaction.antt =====
-- redaction.rs, and the header values that main.rs logs: what the logs show of a payload and of the
-- request's headers.
pub mod Laws
use Prim.Native.Char.{Char, code}
use Prim.Native.String
use simple_alert_proxy.Prelude.{
  ℕ, zero, suc, ◌+◌, String, Bool, true, false, ◌||◌, Option, none, some, List, [], ◌∷◌, ◌==◌, leb,
  if◌then◌else◌, any,
}
use simple_alert_proxy.Prelude.Text.{trim, append, contains, ends_with, is_one_of}
use simple_alert_proxy.Json.{
  Value, null, bool, number, string, array, object, Items, nil, cons, Fields, end, field,
}

abbrev pub redacted_text : String
redacted_text = "[redacted]"

-- Matched as a whole, and as a part.
abbrev pub sensitive_names : List String
sensitive_names =
    "authorization" ∷ "apikey" ∷ "apiaccesskey" ∷ "accesstoken" ∷ "authtoken" ∷ "bearertoken"
    ∷ "clientsecret" ∷ "credential" ∷ "credentials" ∷ "password" ∷ "secret" ∷ "signingsecret"
    ∷ "token" ∷ "webhookurl" ∷ []

abbrev pub sensitive_parts : List String
sensitive_parts = "password" ∷ "secret" ∷ "token" ∷ "apikey" ∷ "authorization" ∷ "credential" ∷ []

-- `to_lowercase` gives what `char::to_lowercase` does of a character.
module _ (to_lowercase : Char → String) where
  unfoldable pub normalized : String → String
  normalized String.[] = String.[]
  normalized (String.◌∷◌ c s) =
      let rest = normalized s in
      if code c == b'-' || code c == b'_' then rest else append (to_lowercase c) rest

  unfoldable pub is_sensitive_key : String → Bool
  unfolding normalized
  is_sensitive_key key =
      is_one_of sensitive_names (normalized key)
      || any (λ part. contains (normalized key) part) sensitive_parts

  unfoldable mutual
    unfolding is_sensitive_key

    pub redact_json_value : Value → Value
    redact_json_value null = null
    redact_json_value (bool b) = bool b
    redact_json_value (number n) = number n
    redact_json_value (string s) = string s
    redact_json_value (array items) = array (redact_items items)
    redact_json_value (object fields) = object (redact_fields fields)

    pub redact_items : Items → Items
    redact_items nil = nil
    redact_items (cons v rest) = cons (redact_json_value v) (redact_items rest)

    pub redact_fields : Fields → Fields
    redact_fields end = end
    redact_fields (field key v rest) =
        let inner = redact_json_value v in
        field key (if is_sensitive_key key then string redacted_text else inner)
          (redact_fields rest)

  unfoldable pub debug_payload_for_logging : Value → Bool → Value
  unfolding redact_json_value
  debug_payload_for_logging value log_full_payloads =
      if log_full_payloads then value else redact_json_value value

-- main.rs: the logged values of headers. `lower` is `to_ascii_lowercase`, and a value that is not
-- text is `none`.
abbrev pub string_count : String → ℕ
string_count String.[] = 0
string_count (String.◌∷◌ c s) = suc (string_count s)

abbrev pub string_take : ℕ → String → String
string_take zero s = String.[]
string_take (suc n) String.[] = String.[]
string_take (suc n) (String.◌∷◌ c s) = String.◌∷◌ c (string_take n s)

unfoldable pub truncate_header_value : String → String
truncate_header_value value =
    if leb (string_count value) 256 then value else append (string_take 256 value) "...[truncated]"

module _ (lower : String → String) where
  unfoldable pub is_sensitive_header : String → Bool
  is_sensitive_header name =
      is_one_of ("authorization" ∷ "proxy-authorization" ∷ "cookie" ∷ "set-cookie" ∷ "key" ∷ [])
        (lower name)
      || any (λ part. contains (lower name) part)
          ("token" ∷ "secret" ∷ "password" ∷ "credential" ∷ "api-key" ∷ [])
      || ends_with (lower name) "-key"

  unfoldable pub logged_header_value : String → Option String → String
  unfolding is_sensitive_header truncate_header_value
  logged_header_value name value =
      if is_sensitive_header name
      then "[redacted]"
      else elim value [ none ↦ "[non-utf8]" | some text ↦ truncate_header_value (trim text) ]

  unfoldable pub logged_headers : List (String × Option String) → List (String × String)
  unfolding logged_header_value
  logged_headers [] = []
  logged_headers ((name, value) ∷ rest) =
      (lower name, logged_header_value name value) ∷ logged_headers rest
