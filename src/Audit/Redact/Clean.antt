-- ===== src/Audit/Redact/Clean.antt =====
-- What a redacted value no longer holds (src/dsa_operator/audit/log.py).
use dsa110_operator.Prelude.{
  String, ◌≡◌, refl, ap, Bool, true, false, inl, inr, Bool-cases, if◌then◌else◌,
}
use dsa110_operator.Prelude.Int.{ℤ}
use dsa110_operator.Value.{
  Value, null, bool, int, float, str, arr, obj, Items, nil, item, Fields, end, field,
}
use dsa110_operator.Audit.Redact.{
  Scrubber, redacted, is_sensitive, redact, redact_items, redact_fields,
}

-- At any depth, no text is left that scrubbing would change, but under a sensitive key, whose value
-- is the mark of redaction.
mutual
  pub data IsClean (c : Scrubber) : Value → Type 0 where
    null_clean : IsClean c null
    bool_clean : (b : Bool) → IsClean c (bool b)
    int_clean : {n : ℤ} → IsClean c (int n)
    float_clean : {x : ℤ} → IsClean c (float x)
    str_clean : {s : String} → c.scrub s ≡ s → IsClean c (str s)
    arr_clean : {vs : Items} → ItemsClean c vs → IsClean c (arr vs)
    obj_clean : {d : Fields} → FieldsClean c d → IsClean c (obj d)

  pub data ItemsClean (c : Scrubber) : Items → Type 0 where
    nil_clean : ItemsClean c nil
    item_clean : {v : Value} {vs : Items} → IsClean c v → ItemsClean c vs → ItemsClean c (item v vs)

  pub data FieldsClean (c : Scrubber) : Fields → Type 0 where
    end_clean : FieldsClean c end
    secret_clean :
        {k : String} {d : Fields}
        → is_sensitive c k ≡ true
        → FieldsClean c d
        → FieldsClean c (field k (str redacted) d)
    field_clean :
        {k : String} {v : Value} {d : Fields}
        → is_sensitive c k ≡ false
        → IsClean c v
        → FieldsClean c d
        → FieldsClean c (field k v d)

module _ (c : Scrubber) (scrub_scrub : (s : String) → c.scrub (c.scrub s) ≡ c.scrub s) where
  field_or_secret :
      (k : String) (v : Value) (d : Fields)
      → IsClean c v
      → FieldsClean c d
      → FieldsClean c (field k (if is_sensitive c k then str redacted else v) d)
  field_or_secret k v d h r = elim (Bool-cases (is_sensitive c k)) [
    | inl e ↦ rw e (secret_clean e r)
    | inr e ↦ rw e (field_clean e h r)
  ]

  mutual
    unfolding redact redact_items redact_fields

    redact-IsClean' : (v : Value) → IsClean c (redact c v)
    redact-IsClean' null = null_clean
    redact-IsClean' (bool b) = bool_clean b
    redact-IsClean' (int n) = int_clean
    redact-IsClean' (float x) = float_clean
    redact-IsClean' (str s) = str_clean (scrub_scrub s)
    redact-IsClean' (arr vs) = arr_clean (redact_items-ItemsClean vs)
    redact-IsClean' (obj d) = obj_clean (redact_fields-FieldsClean d)

    redact_items-ItemsClean : (vs : Items) → ItemsClean c (redact_items c vs)
    redact_items-ItemsClean nil = nil_clean
    redact_items-ItemsClean (item v vs) =
        item_clean (redact-IsClean' v) (redact_items-ItemsClean vs)

    redact_fields-FieldsClean : (d : Fields) → FieldsClean c (redact_fields c d)
    redact_fields-FieldsClean end = end_clean
    redact_fields-FieldsClean (field k v d) =
        field_or_secret k (redact c v) (redact_fields c d) (redact-IsClean' v)
          (redact_fields-FieldsClean d)

mutual
  unfolding redact redact_items redact_fields

  clean_kept : {c : Scrubber} {v : Value} → IsClean c v → redact c v ≡ v
  clean_kept null_clean = refl
  clean_kept (bool_clean b) = refl
  clean_kept int_clean = refl
  clean_kept float_clean = refl
  clean_kept (str_clean e) = ap str e
  clean_kept (arr_clean h) = ap arr (items_kept h)
  clean_kept (obj_clean h) = ap obj (fields_kept h)

  items_kept : {c : Scrubber} {vs : Items} → ItemsClean c vs → redact_items c vs ≡ vs
  items_kept nil_clean = refl
  items_kept (item_clean h r) = rw (clean_kept h, items_kept r) refl

  fields_kept : {c : Scrubber} {d : Fields} → FieldsClean c d → redact_fields c d ≡ d
  fields_kept end_clean = refl
  fields_kept (secret_clean e r) = rw (e, fields_kept r) refl
  fields_kept (field_clean e h r) = rw (e, clean_kept h, fields_kept r) refl

-- Where scrubbing a text twice is scrubbing it once, a redacted value holds no text at any depth that
-- scrubbing would change and no value but the mark under a key with a sensitive part; and redacting
-- it again changes nothing.
pub redact-IsClean :
    (c : Scrubber)
    → ((s : String) → c.scrub (c.scrub s) ≡ c.scrub s)
    → (v : Value) → IsClean c (redact c v) × (redact c (redact c v) ≡ redact c v)
redact-IsClean c h v = (redact-IsClean' c h v, clean_kept (redact-IsClean' c h v))
