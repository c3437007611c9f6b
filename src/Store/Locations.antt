-- ===== src/Store/Locations.antt =====
-- The reads of ledger/store.py `Ledger` about the places of artifacts.
use lean_evolve.Prelude.{String, Bool, not, ◌&&◌, ◌||◌, List, map, select, any, ◌==◌}
use lean_evolve.Value.{Host}
use lean_evolve.Store.Tables.{Ledger, LocationRow, ObjectRecord, object_from_row}

-- `Ledger.locations`; the table stands in the order of the locations.
unfoldable pub locations : Ledger → String → Bool → List LocationRow
locations l object_id present_only =
    select (λ p. p.object_id == object_id && (not present_only || p.state == "present")) l.locations

-- `Ledger.artifacts_without_location`
unfoldable pub artifacts_without_location : Host → Ledger → List ObjectRecord
artifacts_without_location host l = map (object_from_row host) (
    select
      (λ o.
        o.kind == "artifact"
        && not (any (λ p. p.object_id == o.id && p.state == "present") l.locations))
      l.objects)
