-- ===== src/Config/Checks.antt =====
-- Checks of settings that end at their first failure, and the loops over them.
use simple_alert_proxy.Prelude.{
  ℕ, ◌+◌, String, Bool, true, false, Option, none, some, List, [], ◌∷◌, ◌≡◌, refl, All,
}

-- What is wrong, as the messages of `bail!` and of the contexts say it.
pub data ConfigError : Type 0 where
  no_receiver body_limit_zero webhook_concurrency_zero management_concurrency_zero : ConfigError
  storage_type_unknown storage_path_empty retention_zero : ConfigError
  attempts_zero initial_backoff_zero max_backoff_small : ConfigError
  policy_empty schedule_empty : String → ConfigError
  step_delay_zero step_no_target step_many_targets step_target_empty : String → ℕ → ConfigError
  step_receiver_unknown step_schedule_unknown : String → ℕ → ConfigError
  entry_target_empty entry_not_one_target entry_receiver_unknown : String → ℕ → ConfigError
  provider_missing mutation_not_enabled : ConfigError
  server_token_empty management_token_empty bootstrap_env_empty session_ttl_zero : ConfigError
  bind_invalid management_exposed : ConfigError
  tls_path_and_env tls_missing tls_env_empty env_unset : String → ConfigError
  tls_mixed : ConfigError
  integration_name_empty : ConfigError
  integration_name_invalid integration_path_empty integration_path_prefix : String → ConfigError
  integration_token_empty integration_source_empty mapping_field_empty : String → ConfigError
  preset_unsupported path_duplicated : String → String → ConfigError
  group_wait_zero max_events_zero max_payload_zero : ConfigError
  receiver_unknown policy_unknown : String → ConfigError
  selector_invalid : String → String → ConfigError
  template_combined template_nothing template_exclusive template_payload_only : String → ConfigError
  template_source_long : String → String → ConfigError
  timeout_zero : String → ConfigError
  url_invalid url_not_http url_credentials url_query : String → ConfigError
  header_name_invalid header_name_reserved value_env_empty : String → ConfigError
  reference_invalid type_invalid : String → String → ConfigError
  room_id_empty room_id_form tokens_exclusive token_empty token_env_empty token_missing :
      String → ConfigError

pub data Check : Type 0 where
  ok : Check
  err : ConfigError → Check

infixl 5 ◌>>◌
abbrev pub ◌>>◌ : Check → Check → Check
ok >> k = k
err e >> k = err e

-- `if b { bail!(e) }`
abbrev pub bail_if : Bool → ConfigError → Check
bail_if true e = err e
bail_if false e = ok

-- `if let Some(a) = o { … }`
abbrev pub if_some {ℓ} : {A : Type ℓ} → Option A → (A → Check) → Check
if_some none f = ok
if_some (some a) f = f a

-- `for x in xs { f(x)?; }`
unfoldable pub each {ℓ} : {A : Type ℓ} → (A → Check) → List A → Check
each f [] = ok
each f (x ∷ xs) = f x >> each f xs

-- `for (i, x) in xs.iter().enumerate() { f(i, x)?; }`
unfoldable pub each_from {ℓ} : {A : Type ℓ} → ℕ → (ℕ → A → Check) → List A → Check
each_from i f [] = ok
each_from i f (x ∷ xs) = f i x >> each_from (i + 1) f xs

pub >>-ok : (m k : Check) → (m >> k) ≡ ok → (m ≡ ok) × (k ≡ ok)
>>-ok ok k h = (refl, h)
>>-ok (err e) k h = cc

pub bail_if-ok : (b : Bool) (e : ConfigError) → bail_if b e ≡ ok → b ≡ false
bail_if-ok true e h = cc
bail_if-ok false e h = refl

pub if_some-ok {ℓ} :
    {A : Type ℓ} (o : Option A) (f : A → Check) (a : A) → if_some o f ≡ ok → o ≡ some a → f a ≡ ok
if_some-ok none f a h e = cc
if_some-ok (some b) f a h e = cc

pub each-ok {ℓ} :
    {A : Type ℓ} (f : A → Check) (xs : List A) → each f xs ≡ ok → All (λ x. f x ≡ ok) xs
unfolding each
each-ok f [] h = tt
each-ok f (x ∷ xs) h = let (a, b) = >>-ok (f x) (each f xs) h in (a, each-ok f xs b)

-- Every member passes its check, at some index.
pub each_from-ok {ℓ κ} :
    {A : Type ℓ} (P : A → Type κ) (i : ℕ) (f : ℕ → A → Check) (xs : List A)
    → ((j : ℕ) (x : A) → f j x ≡ ok → P x)
    → each_from i f xs ≡ ok
    → All P xs
unfolding each_from
each_from-ok P i f [] g h = tt
each_from-ok P i f (x ∷ xs) g h =
    let (a, b) = >>-ok (f i x) (each_from (i + 1) f xs) h in
    (g i x a, each_from-ok P (i + 1) f xs g b)
