-- ===== src/Redaction/Laws.antt =====
-- redaction.rs: no value under a sensitive key is left, and nothing else changes.
use Prim.Native.Char.{Char}
use simple_alert_proxy.Prelude.{
  false, String, true, none, some, ◌≡◌, ◌↔◌, refl, ap, subst, arith, Bool-cases, inl, inr,
  if◌then◌else◌, str_eq, str_eq_iff,
}
use simple_alert_proxy.Json.{
  Value, null, bool, number, string, array, object, Items, nil, cons, Fields, end, field, field_get,
}
use simple_alert_proxy.Redaction.{
  debug_payload_for_logging, redacted_text, is_sensitive_key, redact_json_value, redact_items,
  redact_fields,
}

module _ (to_lowercase : Char → String) where
  -- At every depth, the value under a sensitive key is the redacted text.
  unfoldable mutual
    pub IsRedacted : Value → Type 0
    IsRedacted null = Unit
    IsRedacted (bool b) = Unit
    IsRedacted (number n) = Unit
    IsRedacted (string s) = Unit
    IsRedacted (array items) = AreRedacted items
    IsRedacted (object fields) = HasRedacted fields

    pub AreRedacted : Items → Type 0
    AreRedacted nil = Unit
    AreRedacted (cons v rest) = IsRedacted v × AreRedacted rest

    pub HasRedacted : Fields → Type 0
    HasRedacted end = Unit
    HasRedacted (field key v rest) =
        (is_sensitive_key to_lowercase key ≡ true → v ≡ string redacted_text)
        × IsRedacted v
        × HasRedacted rest

  mutual
    unfolding IsRedacted redact_json_value

    IsRedacted-value : (v : Value) → IsRedacted (redact_json_value to_lowercase v)
    IsRedacted-value null = tt
    IsRedacted-value (bool b) = tt
    IsRedacted-value (number n) = tt
    IsRedacted-value (string s) = tt
    IsRedacted-value (array items) = AreRedacted-items items
    IsRedacted-value (object fields) = HasRedacted-fields fields

    AreRedacted-items : (items : Items) → AreRedacted (redact_items to_lowercase items)
    AreRedacted-items nil = tt
    AreRedacted-items (cons v rest) = (IsRedacted-value v, AreRedacted-items rest)

    HasRedacted-fields : (fields : Fields) → HasRedacted (redact_fields to_lowercase fields)
    HasRedacted-fields end = tt
    HasRedacted-fields (field key v rest) = elim (Bool-cases (is_sensitive_key to_lowercase key)) [
      | inl e ↦ rw e (λ h. refl, tt, HasRedacted-fields rest)
      | inr e ↦ rw e (λ h. ground arith, IsRedacted-value v, HasRedacted-fields rest)
    ]

  mutual
    unfolding IsRedacted redact_json_value

    unchanged_value : (v : Value) → IsRedacted v → redact_json_value to_lowercase v ≡ v
    unchanged_value null h = refl
    unchanged_value (bool b) h = refl
    unchanged_value (number n) h = refl
    unchanged_value (string s) h = refl
    unchanged_value (array items) h = let e = unchanged_items items h in cc
    unchanged_value (object fields) h = let e = unchanged_fields fields h in cc

    unchanged_items : (items : Items) → AreRedacted items → redact_items to_lowercase items ≡ items
    unchanged_items nil h = refl
    unchanged_items (cons v rest) h =
        let a = unchanged_value v h.0 in let b = unchanged_items rest h.1 in cc

    unchanged_fields :
        (fields : Fields) → HasRedacted fields → redact_fields to_lowercase fields ≡ fields
    unchanged_fields end h = refl
    unchanged_fields (field key v rest) h =
        let a = unchanged_value v h.1 in
        let b = unchanged_fields rest h.2 in
        elim (Bool-cases (is_sensitive_key to_lowercase key)) [
          | inl e ↦ let c = h.0 e in rw e cc
          | inr e ↦ rw e cc
        ]

  -- Where full payloads are not to be logged, what `debug_payload_for_logging` gives of a payload has
  -- the redacted text under each sensitive key, at every depth, and is the payload itself exactly if
  -- that has it already.
  pub debug_payload_for_logging-IsRedacted :
      (v : Value)
      → IsRedacted (debug_payload_for_logging to_lowercase v false)
        × (IsRedacted v ↔ (debug_payload_for_logging to_lowercase v false ≡ v))
  unfolding debug_payload_for_logging
  debug_payload_for_logging-IsRedacted v =
      (IsRedacted-value v, (unchanged_value v, λ e. subst IsRedacted e (IsRedacted-value v)))

  -- Under a key, the redacted object has the redacted text if the key is sensitive, and the redacted
  -- value that was there if it is not; it has no key that was not there.
  field_get-redact_fields :
      (fields : Fields) (key : String)
      → field_get (redact_fields to_lowercase fields) key ≡ elim (field_get fields key) [
        | none ↦ none
        | some v ↦ some (
            if is_sensitive_key to_lowercase key
            then string redacted_text
            else redact_json_value to_lowercase v)
      ]
  unfolding redact_json_value field_get
  field_get-redact_fields end key = refl
  field_get-redact_fields (field k v rest) key = elim (Bool-cases (str_eq k key)) [
    | inl e ↦
        let same : k ≡ key = ground (arith, str_eq_iff k key) in
        let known = ap (is_sensitive_key to_lowercase) same in ground (arith, e, known)
    | inr e ↦ ground (arith, e, field_get-redact_fields rest key)
  ]
