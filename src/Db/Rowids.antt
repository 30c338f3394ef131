-- ===== src/Db/Rowids.antt =====
-- The engine's row ids, as a concrete instance.
use uptime_monitor_api.Base.{ℕ, suc, ◌<◌, List, [], ◌∷◌, arith, All, ltb, if◌then◌else◌}
use uptime_monitor_api.Db.{Sqlite}

abbrev pub max_id : List ℕ → ℕ
max_id [] = 0
max_id (i ∷ ids) = let m = max_id ids in if ltb m i then i else m

pub max_id_bound : (k : ℕ) (ids : List ℕ) → max_id ids < k → All (λ i. i < k) ids
max_id_bound k [] h = tt
max_id_bound k (i ∷ ids) h = (ground arith, max_id_bound k ids (ground arith))

-- One more than the largest id in use, and 1 in an empty table.
abbrev pub counting : Sqlite
counting = record {
  new_rowid = λ ids. suc (max_id ids);
  new_rowid_pos = λ ids. omega arith;
  new_rowid_above = λ ids. max_id_bound (suc (max_id ids)) ids (omega arith);
}
