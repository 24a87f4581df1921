-- ===== src/Tests/Records.antt =====
-- The audit trail and the egress allowlist.
use dsa110_operator.Prelude.{
  ◌≡◌, ◌≤◌, refl, Bool, true, false, none, some, List, [], ◌∷◌, ℕ, String, length, str_eq,
  if◌then◌else◌, inl, inr, Bool-cases,
}
use dsa110_operator.Prelude.Int.{ℤ, pos, ◌+ℤ◌}
use dsa110_operator.Value.{Value, Fields, null, obj, str, arr, nil, item, float, field, end, unit}
use dsa110_operator.Convert.{to_text}
use dsa110_operator.Audit.Redact.{Scrubber, redacted, redact, is_sensitive}
use dsa110_operator.Audit.Redact.Clean.{IsClean, redact-IsClean}
use dsa110_operator.Audit.Log.{
  LogRecord, DayFile, Line, blank, junk, row, record_all, new_log, recent, select, last_n, window,
  sort_by_ts,
}
use dsa110_operator.Audit.Log.Ring.{payloads, recent-record_all}
use dsa110_operator.Audit.Log.Window.{every_row, FiledByDay, IsSorted, window-every_row}
use dsa110_operator.Audit.Log.Tail.{tail, readable, all_rows, tail-last_n}
use dsa110_operator.Audit.Egress.{HostNames, Resolver, original, guarded, install_socket_guard}
use dsa110_operator.Tests.{platform}

-- Whole texts that are a token are scrubbed.
abbrev scrub : String → String
scrub s = if str_eq s "sk-ant-12345678" then redacted else s

abbrev scrubber : Scrubber
scrubber = record { scrub = scrub; lower = λ s. s }

scrub_scrub : (s : String) → scrub (scrub s) ≡ scrub s
scrub_scrub s = elim (Bool-cases (str_eq s "sk-ant-12345678")) [
  | inl e ↦ rw e refl
  | inr e ↦ rw (e, e) refl
]

abbrev leaky : Value
leaky = obj (
    field "api_key" (str "hunter2")
      (field "args" (arr (item (str "sk-ant-12345678") (item (str "ok") nil))) end))

redact-IsClean_example :
    IsClean scrubber (redact scrubber leaky)
    × (redact scrubber (redact scrubber leaky) ≡ redact scrubber leaky)
redact-IsClean_example = redact-IsClean scrubber scrub_scrub leaky

-- What is left of it.
redact-leaky :
    redact scrubber leaky
    ≡ obj (
        field "api_key"
          (str redacted)
          (field "args" (arr (item (str redacted) (item (str "ok") nil))) end))
unfolding redact is_sensitive
redact-leaky = refl

abbrev entry : String → ℕ → LogRecord
entry action ts = record {
  action = action;
  kind = "control";
  actor = "ana";
  ok = true;
  mode = "live";
  params = end;
  result = null;
  note = "";
  ts = unit (pos ts);
}

abbrev iso : ℤ → String
iso t = "day"

abbrev entries : List (Bool × LogRecord)
entries = (false, entry "a" 1) ∷ (true, entry "b" 2) ∷ (false, entry "c" 3) ∷ []

recent-record_all_example :
    (recent 5 none false true (record_all scrubber iso iso entries (new_log 2))
      ≡ select 5 none false true (last_n 2 (payloads scrubber iso iso entries)))
    × (length (record_all scrubber iso iso entries (new_log 2)).ring ≤ 2)
recent-record_all_example = recent-record_all scrubber iso iso 2 5 none false true entries

abbrev at : ℕ → Fields
at ts = field "ts" (float (unit (pos ts))) end

abbrev files : List DayFile
files =
    record { day_start = some (pos 0); lines = some (row (at 10) ∷ blank ∷ []) }
    ∷ record {
      day_start = some (unit (pos 172800));
      lines = some (row (at 172900) ∷ junk ∷ row (at 172850) ∷ []);
    }
    ∷ record { day_start = none; lines = none }
    ∷ []

filed : FiledByDay files
unfolding ◌+ℤ◌
filed = ((refl, tt), ((refl, (refl, tt)), (tt, tt)))

window-every_row_example :
    (window (unit (pos 172800)) (unit (pos 180000)) files
      ≡ sort_by_ts (every_row (unit (pos 172800)) (unit (pos 180000)) files))
    × IsSorted (window (unit (pos 172800)) (unit (pos 180000)) files)
window-every_row_example = window-every_row (unit (pos 172800)) (unit (pos 180000)) files filed

-- Two day files with three records.
abbrev days : List (List Line)
days = (row (at 10) ∷ blank ∷ row (at 20) ∷ []) ∷ (junk ∷ row (at 30) ∷ []) ∷ []

tail_two : tail 2 (readable days) ≡ some (at 20 ∷ at 30 ∷ [])
unfolding tail
tail_two = refl

-- The older file is not opened once there are enough records.
tail_unopened : tail 1 (none ∷ some (row (at 30) ∷ []) ∷ []) ≡ some (at 30 ∷ [])
unfolding tail
tail_unopened = refl

tail_unreadable : tail 2 (none ∷ some (row (at 30) ∷ []) ∷ []) ≡ none
unfolding tail
tail_unreadable = refl

tail-last_n_example : tail 2 (readable days) ≡ some (last_n 2 (all_rows days))
tail-last_n_example = tail-last_n 2 days

abbrev names : HostNames
names = record {
  lower = λ s. s;
  strip_dots = λ s. s;
  strip = λ s. s;
  ends_with_local = λ s. false;
  is_local_address = λ s. str_eq s "127.0.0.1";
}

abbrev allowlist : Fields
allowlist =
    field "allow"
      (obj (field "llm" (obj (field "hosts" (arr (item (str "api.anthropic.com") nil)) end)) end))
      end

abbrev guard : Resolver
guard = guarded ("etcd" ∷ "api.anthropic.com" ∷ [])

installed : install_socket_guard platform names allowlist "etcd" original ≡ some (true, guard)
unfolding install_socket_guard to_text
installed = refl
