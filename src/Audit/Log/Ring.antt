-- ===== src/Audit/Log/Ring.antt =====
-- The ring holds the latest records (src/dsa_operator/audit/log.py).
use dsa110_operator.Prelude.{
  ℕ, ◌+◌, ◌≤◌, String, ◌≡◌, refl, sym, subst, ap, ◌∙◌, Bool, true, false, Option, List, [], ◌∷◌,
  ◌++◌, length, length-append, leb, arith, Bool-cases, inl, inr,
}
use mathlib.Core.List.{append-nil, append_assoc}
use dsa110_operator.Prelude.Int.{ℤ}
use dsa110_operator.Value.{Fields}
use dsa110_operator.Audit.Redact.{Scrubber}
use dsa110_operator.Audit.Log.{
  LogRecord, AuditLog, new_log, capacity, push, last_n, to_json, record_, record_all, recent,
  select,
}

module _ {A : Type 0} where
  pub last_n_all : (n : ℕ) (xs : List A) → length xs ≤ n → last_n n xs ≡ xs
  unfolding last_n
  last_n_all n [] h = refl
  last_n_all n (x ∷ xs) h = ground arith

  -- A ring of the latest stays one when an element is pushed.
  push-last_n :
      (n : ℕ) (xs : List A) (y : A) → 1 ≤ n → push n y (last_n n xs) ≡ last_n n (xs ++ y ∷ [])
  unfolding last_n push
  push-last_n n [] y h = ground arith
  push-last_n n (x ∷ xs) y h = elim (Bool-cases (leb (length xs + 1) n)) [
    | inl fits ↦ elim (Bool-cases (leb (length xs + 1 + 1) n)) [
      | inl more ↦ ground (arith, length-append xs (y ∷ []))
      | inr full ↦ ground (arith, length-append xs (y ∷ []), last_n_all n (xs ++ y ∷ []))
    ]
    | inr over ↦ ground (arith, length-append xs (y ∷ []), push-last_n n xs y h)
  ]

  length-last_n : (n : ℕ) (xs : List A) → length (last_n n xs) ≤ n
  unfolding last_n
  length-last_n n [] = omega arith
  length-last_n n (x ∷ xs) = ground (arith, length-last_n n xs)

module _ (c : Scrubber) (iso_of day_of : ℤ → String) where
  -- The payloads of a series of records, the oldest first.
  abbrev pub payloads : List (Bool × LogRecord) → List Fields
  payloads [] = []
  payloads ((disk_fails, r) ∷ rs) = to_json c iso_of r ∷ payloads rs

  ring-record_ :
      (disk_fails : Bool) (r : LogRecord) (before : List Fields) (log : AuditLog)
      → log.ring ≡ last_n (capacity log.ring_size) before
      → ((record_ c iso_of day_of disk_fails r log).1.ring_size ≡ log.ring_size)
        × ((record_ c iso_of day_of disk_fails r log).1.ring
            ≡ last_n (capacity log.ring_size) (before ++ to_json c iso_of r ∷ []))
  unfolding record_
  ring-record_ true r before log h =
      (refl, rw h (push-last_n (capacity log.ring_size) before (to_json c iso_of r) (ground arith)))
  ring-record_ false r before log h =
      (refl, rw h (push-last_n (capacity log.ring_size) before (to_json c iso_of r) (ground arith)))

  ring-record_all :
      (rs : List (Bool × LogRecord)) (before : List Fields) (log : AuditLog)
      → log.ring ≡ last_n (capacity log.ring_size) before
      → (record_all c iso_of day_of rs log).ring
        ≡ last_n (capacity log.ring_size) (before ++ payloads rs)
  unfolding record_all
  ring-record_all [] before log h = rw (append-nil before) h
  ring-record_all ((disk_fails, r) ∷ rs) before log h =
      let log' = (record_ c iso_of day_of disk_fails r log).1 in
      let kept = ring-record_ disk_fails r before log h in
      (rw kept.0 at
        (ring-record_all rs (before ++ to_json c iso_of r ∷ []) log' (rw kept.0 kept.1)))
      ∙ ap (last_n (capacity log.ring_size))
          (append_assoc before (to_json c iso_of r ∷ []) (payloads rs))

  -- After a series of records into a new log, whether the disk took them or not, `recent` selects from
  -- exactly the latest of them, as many as the ring has room for (one at least); and no more are held.
  pub recent-record_all :
      (size n : ℕ) (kind : Option String) (failures_only newest_first : Bool)
      (rs : List (Bool × LogRecord))
      → let log = record_all c iso_of day_of rs (new_log size) in
        (recent n kind failures_only newest_first log
          ≡ select n kind failures_only newest_first (last_n (capacity size) (payloads rs)))
        × (length log.ring ≤ capacity size)
  unfolding recent last_n
  recent-record_all size n kind failures_only newest_first rs =
      let e = ring-record_all rs [] (new_log size) refl in
      (
        ap (select n kind failures_only newest_first) e,
        subst (λ (ring : List Fields). length ring ≤ capacity size) (sym e)
            (length-last_n (capacity size) (payloads rs)),
      )
