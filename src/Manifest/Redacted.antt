-- ===== src/Manifest/Redacted.antt =====
-- A value that `redact_value` does not report as changed is as it was.
use browserbench.Prelude.{
  String, ◌≡◌, refl, ap, ◌∙◌, Bool, true, false, not, ◌||◌, arith, str_eq, eq_iff,
}
use browserbench.Json.{
  null, bool, int, real, str, Value, scalar, obj, arr, Fields, field, end, Items, cons, nil,
}
use browserbench.Manifest.Traces.{redact_value, redact_fields, redact_items}

-- A text that is not changed.
kept : (redact : String → String) (s : String) → not (str_eq (redact s) s) ≡ false → redact s ≡ s
kept redact s h = ground (arith, eq_iff (redact s) s)

neither : (a b : Bool) → (a || b) ≡ false → (a ≡ false) × (b ≡ false)
neither true b h = cc
neither false b h = (refl, h)

mutual
  unfolding redact_value redact_fields redact_items

  -- Where `redact_value` reports no change, the value is the one that it is given.
  pub redact_value-unchanged :
      (redact : String → String) (v : Value)
      → (redact_value redact v).1 ≡ false
      → (redact_value redact v).0 ≡ v
  redact_value-unchanged redact (scalar (str s)) h = ap (λ t. scalar (str t)) (kept redact s h)
  redact_value-unchanged redact (scalar null) h = refl
  redact_value-unchanged redact (scalar (bool b)) h = refl
  redact_value-unchanged redact (scalar (int n)) h = refl
  redact_value-unchanged redact (scalar (real x)) h = refl
  redact_value-unchanged redact (obj fs) h = ap obj (redact_fields-unchanged redact fs h)
  redact_value-unchanged redact (arr vs) h = ap arr (redact_items-unchanged redact vs h)

  redact_fields-unchanged :
      (redact : String → String) (fs : Fields)
      → (redact_fields redact fs).1 ≡ false
      → (redact_fields redact fs).0 ≡ fs
  redact_fields-unchanged redact end h = refl
  redact_fields-unchanged redact (field k v fs) h =
      let n = neither (redact_value redact v).1 (redact_fields redact fs).1 h in
      ap (λ w. field k w (redact_fields redact fs).0) (redact_value-unchanged redact v n.0)
      ∙ ap (field k v) (redact_fields-unchanged redact fs n.1)

  redact_items-unchanged :
      (redact : String → String) (vs : Items)
      → (redact_items redact vs).1 ≡ false
      → (redact_items redact vs).0 ≡ vs
  redact_items-unchanged redact nil h = refl
  redact_items-unchanged redact (cons v vs) h =
      let n = neither (redact_value redact v).1 (redact_items redact vs).1 h in
      ap (λ w. cons w (redact_items redact vs).0) (redact_value-unchanged redact v n.0)
      ∙ ap (cons v) (redact_items-unchanged redact vs n.1)
