-- ===== src/Control/Engine/Mirrored.antt =====
-- Etcd with the rows that the trail gained (src/dsa_operator/audit/log.py: AuditLog.record tells the
-- sink of each row; src/dsa_operator/web/app.py wires the sink to the console's engine). The store
-- of an engine holds the other keys; where it is as it was, the rows are put on it one by one.
use dsa110_operator.Prelude.{
  ℕ, zero, suc, String, ◌≡◌, ◌∙◌, subst, sym, ap, false, List, [], ◌∷◌, length, starts_with,
}
use dsa110_operator.Etcd.Backend.{Backend, get}
use dsa110_operator.Audit.Sink.{audit_prefix, EtcdAuditSink, MirrorRow, mirror_all}
use dsa110_operator.Audit.Sink.Elsewhere.{IsSound, get-mirror_all}
use dsa110_operator.Control.Engine.{Engine, AuditRecord}

-- The sink, and what it is told of each row, by its place among the new ones.
pub record Mirror : Type 0 where
  pub sink : EtcdAuditSink
  pub row_of : ℕ → AuditRecord → MirrorRow

abbrev pub drop {ℓ} : {A : Type ℓ} → ℕ → List A → List A
drop zero xs = xs
drop (suc n) [] = []
drop (suc n) (x ∷ xs) = drop n xs

-- The rows of the trail after, but for those before.
abbrev pub new_rows : Engine → Engine → List AuditRecord
new_rows w v = drop (length w.audit) v.audit

abbrev pub told_rows : Mirror → ℕ → List AuditRecord → List MirrorRow
told_rows m n [] = []
told_rows m n (r ∷ rows) = m.row_of n r ∷ told_rows m (suc n) rows

unfoldable pub etcd_after : Mirror → Engine → Engine → Backend
etcd_after m w v = (mirror_all (told_rows m 0 (new_rows w v)) (m.sink, v.store)).1

pub get-etcd_after :
    (m : Mirror) (k : String) (w v : Engine)
    → IsSound m.sink w.store
    → starts_with k audit_prefix ≡ false
    → v.store ≡ w.store
    → get k (etcd_after m w v) ≡ get k w.store
unfolding etcd_after
get-etcd_after m k w v sound outside e =
    get-mirror_all k outside (told_rows m 0 (new_rows w v)) (m.sink, v.store)
      (subst (IsSound m.sink) (sym e) sound)
    ∙ ap (get k) e
