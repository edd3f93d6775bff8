-- ===== src/Solve/Verdict.antt =====
-- The verdict of a poll in which a required participant is silent, from the stored rows to the
-- view of api/internal/server/solve.go.
use overlap.Common.Float.{Float}
use overlap.Time.{Time}
use overlap.Solver
use overlap.Solver.Dominance.{Dominance}
use overlap.Slots.{SlotError}
use overlap.Slots
