-- ===== src/Config/Tls.antt =====
-- config.rs: where the TLS certificate and key come from.
use Prim.Native.Char.{code}
use simple_alert_proxy.Prelude.{
  String, true, false, ◌&&◌, ◌||◌, not, Option, none, some, ◌==◌, if◌then◌else◌,
}
use simple_alert_proxy.Prelude.Text.{
  is_empty, append, contains, strip_prefix, strip_last, all_codes, is_ascii_alphanumeric,
}
use simple_alert_proxy.Config.{TlsConfig}
use simple_alert_proxy.Config.Checks.{ConfigError, Check, ok, err}
use simple_alert_proxy.Config.Outside.{Outside}

-- `pem` holds the text whose bytes the source takes.
pub data TlsSource : Type 0 where
  path pem : String → TlsSource

pub data Outcome {ℓ} (A : Type ℓ) : Type ℓ where
  value : A → Outcome A
  failed : ConfigError → Outcome A

unfoldable pub env_value : Outside → String → Outcome String
env_value outside name = elim (outside.env_var name) [
  | none ↦ failed (ConfigError.env_unset name)
  | some text ↦ value text
]

unfoldable pub braced_name : String → Option String
braced_name text = elim (strip_prefix "${" text) [ none ↦ none | some rest ↦ strip_last b'}' rest ]

unfoldable pub plain_name : String → Option String
plain_name text = elim (strip_prefix "$" text) [
  | none ↦ none
  | some name ↦
      if not (is_empty name) && all_codes (λ ch. ch == b'_' || is_ascii_alphanumeric ch) name
      then some name
      else none
]

unfoldable pub resolve_env_reference : Outside → String → Outcome String
unfolding braced_name plain_name env_value
resolve_env_reference outside text = elim (braced_name text) [
  | some name ↦ env_value outside name
  | none ↦ elim (plain_name text) [ some name ↦ env_value outside name | none ↦ value text ]
]

-- `replace("\\n", "\n")`
unfoldable pub unescape_newlines : String → String
unescape_newlines String.[] = String.[]
unescape_newlines (String.◌∷◌ c String.[]) = String.◌∷◌ c String.[]
unescape_newlines (String.◌∷◌ c (String.◌∷◌ d s)) = elim (code c == b'\\' && code d == b'n') [
  | true ↦ append "\n" (unescape_newlines s)
  | false ↦ String.◌∷◌ c (unescape_newlines (String.◌∷◌ d s))
]

unfoldable pub decode_env_pem : String → String
unfolding unescape_newlines
decode_env_pem text =
    if contains text "\\n" && not (contains text "\n") then unescape_newlines text else text

unfoldable pub tls_source : Outside → String → Option String → Option String → Outcome TlsSource
unfolding resolve_env_reference decode_env_pem env_value
tls_source outside kind (some p) (some e) = failed (ConfigError.tls_path_and_env kind)
tls_source outside kind none none = failed (ConfigError.tls_missing kind)
tls_source outside kind (some p) none = elim (resolve_env_reference outside p) [
  | failed e ↦ failed e
  | value text ↦ value (path text)
]
tls_source outside kind none (some name) =
    if is_empty name
    then failed (ConfigError.tls_env_empty kind)
    else elim (env_value outside name) [
      | failed e ↦ failed e
      | value text ↦ value (pem (decode_env_pem text))
    ]

unfoldable pub cert_source : Outside → TlsConfig → Outcome TlsSource
unfolding tls_source
cert_source outside tls = tls_source outside "cert" tls.cert_path tls.cert_env

unfoldable pub key_source : Outside → TlsConfig → Outcome TlsSource
unfolding tls_source
key_source outside tls = tls_source outside "key" tls.key_path tls.key_env

unfoldable pub same_kind : TlsSource → TlsSource → Check
same_kind (path p) (path q) = ok
same_kind (pem p) (pem q) = ok
same_kind (path p) (pem q) = err ConfigError.tls_mixed
same_kind (pem p) (path q) = err ConfigError.tls_mixed

-- `TlsConfig::validate`
unfoldable pub validate_tls : Outside → TlsConfig → Check
unfolding cert_source key_source same_kind
validate_tls outside tls = elim (cert_source outside tls) [
  | failed e ↦ err e
  | value cert ↦ elim (key_source outside tls) [ failed e ↦ err e | value key ↦ same_kind cert key ]
]
