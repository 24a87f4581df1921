-- ===== src/Audit/Log.antt =====
-- The audit log (src/dsa_operator/audit/log.py): what a record is written as, the in-memory ring of
-- the latest records, and the reads of the day files. `iso_of` is `datetime.isoformat` and `day_of`
-- the name of a day's file. The sinks are told after the write, and their failures are caught: the
-- one in etcd is Audit/Sink.
pub mod Ring
pub mod Window
pub mod Tail
use dsa110_operator.Prelude.{
  ℕ, suc, ◌+◌, String, Bool, true, false, not, ◌&&◌, ◌==◌, Option, none, some, List, [], ◌∷◌, ◌++◌,
  length, leb, if◌then◌else◌,
}
use dsa110_operator.Prelude.Int.{ℤ, ◌+ℤ◌, leb_ℤ, pos}
use dsa110_operator.Value.{
  Value, null, bool, float, int, str, obj, Fields, end, field, get_or, truthy, is_str, unit,
}
use dsa110_operator.Audit.Redact.{Scrubber, redact, redact_fields}

pub record LogRecord : Type 0 where
  pub action : String
  pub kind : String
  pub actor : String
  pub ok : Bool
  pub mode : String
  pub params : Fields
  pub result : Value
  pub note : String
  pub ts : ℤ

-- The note is written as it is.
unfoldable pub to_json : Scrubber → (ℤ → String) → LogRecord → Fields
to_json c iso_of r = field "ts" (float r.ts) (
    field "iso_ts" (str (iso_of r.ts)) (
      field "action" (str r.action) (
        field "kind" (str r.kind) (
          field "actor" (str r.actor) (
            field "ok" (bool r.ok) (
              field "mode" (str r.mode) (
                field "params" (obj (redact_fields c r.params))
                  (field "result" (redact c r.result) (field "note" (str r.note) end)))))))))

-- A line of a day file: blank, no JSON, or a record.
pub data Line : Type 0 where
  blank junk : Line
  row : Fields → Line

pub record AuditLog : Type 0 where
  pub ring_size : ℕ
  pub ring : List Fields
  -- What was written, with the file it went to, the oldest first.
  pub written : List (String × Fields)

abbrev pub new_log : ℕ → AuditLog
new_log ring_size = record { ring_size = ring_size; ring = []; written = [] }

abbrev pub capacity : ℕ → ℕ
capacity ring_size = if leb 1 ring_size then ring_size else 1

abbrev rest_of {ℓ} : {A : Type ℓ} → List A → List A
rest_of [] = []
rest_of (x ∷ xs) = xs

-- `append` to a deque with a greatest length
unfoldable pub push {ℓ} : {A : Type ℓ} → ℕ → A → List A → List A
push cap x xs = if leb (length xs + 1) cap then xs ++ x ∷ [] else rest_of (xs ++ x ∷ [])

module _ (c : Scrubber) (iso_of day_of : ℤ → String) where
  -- `disk_fails`: the file cannot be opened or written, which raises; the ring has the record.
  unfoldable pub record_ : Bool → LogRecord → AuditLog → Option LogRecord × AuditLog
  unfolding push to_json
  record_ disk_fails r log =
      let payload = to_json c iso_of r in
      let log' = record log { ring = push (capacity log.ring_size) payload log.ring } in
      if disk_fails
      then (none, log')
      else (some r, record log' { written = log.written ++ (day_of r.ts, payload) ∷ [] })

  unfoldable pub record_all : List (Bool × LogRecord) → AuditLog → AuditLog
  unfolding record_
  record_all [] log = log
  record_all ((disk_fails, r) ∷ rs) log = record_all rs (record_ disk_fails r log).1

abbrev pub filter {ℓ} : {A : Type ℓ} → (A → Bool) → List A → List A
filter p [] = []
filter p (x ∷ xs) = let rest = filter p xs in if p x then x ∷ rest else rest

abbrev pub reverse_onto {ℓ} : {A : Type ℓ} → List A → List A → List A
reverse_onto [] ys = ys
reverse_onto (x ∷ xs) ys = reverse_onto xs (x ∷ ys)

-- xs[-n:] for n > 0
unfoldable pub last_n {ℓ} : {A : Type ℓ} → ℕ → List A → List A
last_n n [] = []
last_n n (x ∷ xs) = let rest = last_n n xs in if leb (length xs + 1) n then x ∷ xs else rest

abbrev of_kind : Option String → Fields → Bool
of_kind none r = true
of_kind (some kind) r = is_str (get_or "kind" null r) kind

abbrev is_failure : Fields → Bool
is_failure r = not (truthy (get_or "ok" (bool true) r))

-- What `recent` makes of the ring. `n` is 0 for any number that is not positive.
unfoldable pub select : ℕ → Option String → Bool → Bool → List Fields → List Fields
unfolding last_n
select n kind failures_only newest_first ring =
    let items = filter (of_kind kind) ring in
    let failed = if failures_only then filter is_failure items else items in
    let last = if n == 0 then failed else last_n n failed in
    if newest_first then reverse_onto last [] else last

unfoldable pub recent : ℕ → Option String → Bool → Bool → AuditLog → List Fields
recent n kind failures_only newest_first log = select n kind failures_only newest_first log.ring

-- A day file: the start of the day that its name tells (none where it tells none), and its lines,
-- none where it cannot be read.
pub record DayFile : Type 0 where
  pub day_start : Option ℤ
  pub lines : Option (List Line)

abbrev pub time_of : Value → Option ℤ
time_of (int n) = some (unit n)
time_of (float x) = some x
time_of (bool b) = some (if b then unit (pos 1) else pos 0)
time_of v = none

abbrev pub within : ℤ → ℤ → Option ℤ → Bool
within since until none = false
within since until (some t) = leb_ℤ since t && leb_ℤ t until

abbrev pub in_window : ℤ → ℤ → Fields → Bool
in_window since until r = within since until (time_of (get_or "ts" null r))

unfoldable pub rows_between : ℤ → ℤ → List Line → List Fields
rows_between since until [] = []
rows_between since until (blank ∷ ls) = rows_between since until ls
rows_between since until (junk ∷ ls) = rows_between since until ls
rows_between since until (row r ∷ ls) =
    let rest = rows_between since until ls in if in_window since until r then r ∷ rest else rest

-- Whether the day of the name cannot overlap the window.
abbrev pub is_outside : ℤ → ℤ → Option ℤ → Bool
is_outside since until none = false
is_outside since until (some day) =
    if leb_ℤ since (day +ℤ unit (pos 86400)) then not (leb_ℤ day until) else true

abbrev pub rows_of : ℤ → ℤ → Option (List Line) → List Fields
rows_of since until none = []
rows_of since until (some ls) = rows_between since until ls

-- The loop of `window` over the files in the order of their names.
unfoldable pub scan : ℤ → ℤ → List DayFile → List Fields
unfolding rows_between
scan since until [] = []
scan since until (f ∷ fs) =
    let rest = scan since until fs in
    if is_outside since until f.day_start then rest else rows_of since until f.lines ++ rest

-- `out.sort(key=ts)`: stable, by insertion. Every record in a window has a time.
abbrev pub key_of : Fields → ℤ
key_of r = elim (time_of (get_or "ts" (float (pos 0)) r)) [ none ↦ pos 0 | some t ↦ t ]

unfoldable pub insert_by_ts : Fields → List Fields → List Fields
insert_by_ts r [] = r ∷ []
insert_by_ts r (s ∷ rs) =
    let rest = insert_by_ts r rs in if leb_ℤ (key_of r) (key_of s) then r ∷ s ∷ rs else s ∷ rest

unfoldable pub sort_by_ts : List Fields → List Fields
unfolding insert_by_ts
sort_by_ts [] = []
sort_by_ts (r ∷ rs) = insert_by_ts r (sort_by_ts rs)

unfoldable pub window : ℤ → ℤ → List DayFile → List Fields
unfolding scan sort_by_ts
window since until files = sort_by_ts (scan since until files)
