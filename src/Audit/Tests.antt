-- ===== src/Audit/Tests.antt =====
-- Examples of the audit log, on a table in memory.
use tsdb_operator.Base.{[], ◌∷◌, ◌≡◌, refl, inl, ok, All, arith, ◌<◌}
use tsdb_operator.Base.Int.{pos, shift}
use tsdb_operator.Audit.Memory.{Rows, logger, table_laws}
use tsdb_operator.Audit.{Entry, prune, tick, retention_offset}
use tsdb_operator.Audit.Table.{Holds, keep_from}
use tsdb_operator.Audit.Retention.{cutoff, tick-Holds, prune_wraps}

abbrev old_entry : Entry
old_entry = record {
  id = 0;
  cluster_name = "edge";
  operation = "create";
  operator = "anonymous";
  timestamp = 63844806890000000000;
  result = "success";
  detail = "";
}

abbrev alone : Rows → Rows × Unit {0}
alone rows = (rows, tt)

tick_example : Holds old_entry (tick (logger (pos 30)) (alone (old_entry ∷ []))).1.0
tick_example =
    tick-Holds (logger (pos 30)) (λ w. w.0) (table_laws (pos 30)) 30 refl (omega arith)
      (omega arith) old_entry (alone (old_entry ∷ [])) (omega arith) (inl refl)

prune_done :
    prune (logger (pos 0)) (cutoff 63844806896000000000 (pos 106752)) (alone (old_entry ∷ []))
    ≡ (ok 0, alone [])
unfolding prune retention_offset shift keep_from
prune_done = refl

prune_wraps_example : All (λ (e : Entry). 63844806896000000000 < e.timestamp) []
prune_wraps_example =
    prune_wraps (logger (pos 0)) (λ w. w.0) (table_laws (pos 0)) 106752 (omega arith) (omega arith)
      63844806896000000000 (alone (old_entry ∷ [])) 0 (alone []) prune_done

abbrev fresh : Entry
fresh = record old_entry { operation = "delete"; timestamp = 0 }

abbrev kept : Entry
kept = record fresh { id = 0; timestamp = 63844806896000000000 }
