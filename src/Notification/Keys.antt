-- ===== src/Notification/Keys.antt =====
-- notification.rs: when two notifications get the same key.
use simple_alert_proxy.Prelude.{
  ℕ, zero, suc, ◌+◌, ◌/◌, ◌%◌, ◌<◌, ltb, String, some, List, [], ◌∷◌, ◌≡◌, ◌≢◌, ◌⊎◌, inl, inr, refl,
  sym, ap, ◌∙◌, ◌==◌, arith, All, if◌then◌else◌, Bool-cases, Option-cases,
}
use simple_alert_proxy.Prelude.Text.{append, codes}
use simple_alert_proxy.Alert.{AlertEvent}
use simple_alert_proxy.Routing.{Delivery}
use simple_alert_proxy.Notification.{Hashing, identity_of, hex_digit, hex, grouping_of, batch_key}

abbrev pub IsByte : ℕ → Type 0
IsByte b = b < 256

-- The digits as code points.
abbrev hex_code : ℕ → ℕ
hex_code n = if ltb n 10 then n + b'0' else n + 87

abbrev hex_codes : List ℕ → List ℕ
hex_codes [] = []
hex_codes (byte ∷ rest) = hex_code (byte / 16) ∷ hex_code (byte % 16) ∷ hex_codes rest

digit_lem : (n : ℕ) (s : String) → n < 16 → codes (append (hex_digit n) s) ≡ hex_code n ∷ codes s
digit_lem zero s p = refl
digit_lem (suc zero) s p = refl
digit_lem (suc (suc zero)) s p = refl
digit_lem (suc (suc (suc zero))) s p = refl
digit_lem (suc (suc (suc (suc zero)))) s p = refl
digit_lem (suc (suc (suc (suc (suc zero))))) s p = refl
digit_lem (suc (suc (suc (suc (suc (suc zero)))))) s p = refl
digit_lem (suc (suc (suc (suc (suc (suc (suc zero))))))) s p = refl
digit_lem (suc (suc (suc (suc (suc (suc (suc (suc zero)))))))) s p = refl
digit_lem (suc (suc (suc (suc (suc (suc (suc (suc (suc zero))))))))) s p = refl
digit_lem (suc (suc (suc (suc (suc (suc (suc (suc (suc (suc zero)))))))))) s p = refl
digit_lem (suc (suc (suc (suc (suc (suc (suc (suc (suc (suc (suc zero))))))))))) s p = refl
digit_lem (suc (suc (suc (suc (suc (suc (suc (suc (suc (suc (suc (suc zero)))))))))))) s p = refl
digit_lem (suc (suc (suc (suc (suc (suc (suc (suc (suc (suc (suc (suc (suc zero))))))))))))) s p =
    refl
digit_lem (suc (suc (suc (suc (suc (suc (suc (suc (suc (suc (suc (suc (suc (suc zero)))))))))))))) s
      p =
    refl
digit_lem
      (suc (suc (suc (suc (suc (suc (suc (suc (suc (suc (suc (suc (suc (suc (suc zero)))))))))))))))
      s p =
    refl
digit_lem
      (suc
        (suc (suc (suc (suc (suc (suc (suc (suc (suc (suc (suc (suc (suc (suc (suc n))))))))))))))))
      s p =
    ground arith

hex-codes : (xs : List ℕ) → All IsByte xs → codes (hex xs) ≡ hex_codes xs
unfolding hex
hex-codes [] h = refl
hex-codes (x ∷ xs) h =
    let rest : codes (hex xs) ≡ hex_codes xs = hex-codes xs h.1 in
    let low = digit_lem (x % 16) (hex xs) (omega arith) in
    digit_lem (x / 16) (append (hex_digit (x % 16)) (hex xs)) (omega arith)
    ∙ ap (λ t. hex_code (x / 16) ∷ t) (low ∙ ap (λ t. hex_code (x % 16) ∷ t) rest)

hex_code_injective : (m n : ℕ) → m < 16 → n < 16 → hex_code m ≡ hex_code n → m ≡ n
hex_code_injective m n p q e = ground arith

byte_injective :
    (b c : ℕ)
    → IsByte b
    → IsByte c
    → hex_code (b / 16) ≡ hex_code (c / 16)
    → hex_code (b % 16) ≡ hex_code (c % 16)
    → b ≡ c
byte_injective b c p q high low =
    let h : b / 16 ≡ c / 16 =
      hex_code_injective (b / 16) (c / 16) (omega arith) (omega arith) high in
    let l : b % 16 ≡ c % 16 =
      hex_code_injective (b % 16) (c % 16) (omega arith) (omega arith) low in
    omega arith

hex_codes_injective :
    (xs ys : List ℕ) → All IsByte xs → All IsByte ys → hex_codes xs ≡ hex_codes ys → xs ≡ ys
hex_codes_injective [] [] p q e = refl
hex_codes_injective [] (y ∷ ys) p q e = cc
hex_codes_injective (x ∷ xs) [] p q e = cc
hex_codes_injective (x ∷ xs) (y ∷ ys) p q e =
    let high : hex_code (x / 16) ≡ hex_code (y / 16) = cc in
    let low : hex_code (x % 16) ≡ hex_code (y % 16) = cc in
    let rest : hex_codes xs ≡ hex_codes ys = cc in
    let a : x ≡ y = byte_injective x y p.0 q.0 high low in
    let b : xs ≡ ys = hex_codes_injective xs ys p.1 q.1 rest in cc

hex_injective : (xs ys : List ℕ) → All IsByte xs → All IsByte ys → hex xs ≡ hex ys → xs ≡ ys
hex_injective xs ys p q e =
    hex_codes_injective xs ys p q (sym (hex-codes xs p) ∙ ap codes e ∙ hex-codes ys q)

list_cases : (xs ys : List ℕ) → (xs ≡ ys) ⊎ (xs ≢ ys)
list_cases [] [] = inl refl
list_cases [] (y ∷ ys) = inr (λ e. cc)
list_cases (x ∷ xs) [] = inr (λ e. cc)
list_cases (x ∷ xs) (y ∷ ys) = elim (Bool-cases (x == y)) [
  | inl e ↦ elim (list_cases xs ys) [
    | inl f ↦ let g : x ≡ y = ground arith in inl cc
    | inr f ↦ inr (λ h. f cc)
  ]
  | inr e ↦ inr (λ h. let g : x ≡ y = cc in ground arith)
]

batch_key-hex :
    (hashing : Hashing) (event : AlertEvent) (delivery : Delivery) (g : List (String × String))
    (key : String)
    → grouping_of event delivery ≡ some g
    → batch_key hashing event delivery ≡ some key
    → key ≡ hex (hashing.sha256 (hashing.to_vec (identity_of event delivery g)))
unfolding batch_key
batch_key-hex hashing event delivery g key e h = ground arith

batch_key-grouping :
    (hashing : Hashing) (event : AlertEvent) (delivery : Delivery) (key : String)
    → batch_key hashing event delivery ≡ some key
    → (g : List (String × String)) × (grouping_of event delivery ≡ some g)
unfolding batch_key
batch_key-grouping hashing event delivery key h = elim (Option-cases (grouping_of event delivery)) [
  | inl e ↦ ground arith
  | inr f ↦ f
]

-- Two notifications with the same key have the same identity (receiver, route, team, policy,
-- namespace, status and grouping), or the two encodings of their identities differ and have one
-- digest; where the encoder gives different identities of the two different encodings, and digests
-- are bytes.
pub batch_key_injective :
    (hashing : Hashing) (a b : AlertEvent) (d e : Delivery) (g h : List (String × String))
    (key : String)
    → ((xs : List ℕ) → All IsByte (hashing.sha256 xs))
    → (hashing.to_vec (identity_of a d g) ≡ hashing.to_vec (identity_of b e h)
        → identity_of a d g ≡ identity_of b e h)
    → grouping_of a d ≡ some g
    → grouping_of b e ≡ some h
    → batch_key hashing a d ≡ some key
    → batch_key hashing b e ≡ some key
    → (identity_of a d g ≡ identity_of b e h)
      ⊎ ((hashing.to_vec (identity_of a d g) ≢ hashing.to_vec (identity_of b e h))
          × (hashing.sha256 (hashing.to_vec (identity_of a d g))
              ≡ hashing.sha256 (hashing.to_vec (identity_of b e h))))
batch_key_injective hashing a b d e g h key bytes apart p q r s =
    let xs : List ℕ = hashing.to_vec (identity_of a d g) in
    let ys : List ℕ = hashing.to_vec (identity_of b e h) in
    let same : hashing.sha256 xs ≡ hashing.sha256 ys =
      hex_injective (hashing.sha256 xs) (hashing.sha256 ys) (bytes xs) (bytes ys)
        (sym (batch_key-hex hashing a d g key p r) ∙ batch_key-hex hashing b e h key q s) in
    elim (list_cases xs ys) [ inl t ↦ inl (apart t) | inr t ↦ inr (t, same) ]
