-- ===== src/Tests/Restored.antt =====
-- A restart of the program with one block on record.
use flux_guard.Base.{some, [], ◌∷◌, codes}
use flux_guard.Address.Ipv4
use flux_guard.Brain.State.{Checkpoint, parsed}

abbrev file : Checkpoint
file = parsed ((codes "10.0.0.7", some 25) ∷ [])
