-- ===== src/Config/Outside.antt =====
-- What config.rs asks of the crates url and http, of the standard library's address parser, and of
-- the process's environment.
use simple_alert_proxy.Prelude.{String, Bool, Option}

-- `reqwest::Url`, as far as the checks read it.
pub record Url : Type 0 where
  pub scheme : String
  pub host_str : Option String
  pub username : String
  pub password : Option String
  pub query : Option String
  pub fragment : Option String

-- `Url::parse`, `HeaderName::from_bytes` with `as_str`, whether `HeaderValue::from_str` accepts a
-- text and whether a relative `Url::options().parse` does, `SocketAddr::parse` with
-- `ip().is_loopback()`, and `env::var`. `none` is an error.
pub record Outside : Type 0 where
  pub url_parse : String → Option Url
  pub header_name : String → Option String
  pub is_header_value : String → Bool
  pub parses_on_base : String → Bool
  pub loopback : String → Option Bool
  pub env_var : String → Option String
