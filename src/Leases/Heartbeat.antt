-- ===== src/Leases/Heartbeat.antt =====
-- What a heartbeat answers and what it leaves in the collection.
use httk_data.Prelude.{ℕ, ◌≡◌, refl, Bool, Option, none, some, arith, Result, ok, err}
use httk_data.Leases.Server.{Server, Document, Documented, DocumentId, owned_by, beat}
use httk_data.Leases.Actions.{LeaseError, lease_lost, Lease, refresh_heartbeat}

owned_by-beat : (o now : ℕ) (d : Option Document) → owned_by o (beat now d) ≡ owned_by o d
owned_by-beat o now none = refl
owned_by-beat o now (some d) = refl

module _ (s : Server) (law : Documented s) where
  open s use {Db, find}

  -- A heartbeat changes no owner.
  pub owned_by-refresh_heartbeat :
      (force : Bool) (before after : ℕ) (l : Lease) (d : Db) (o : ℕ) (j : DocumentId)
      → owned_by o (find (refresh_heartbeat s force before after l d).1 j) ≡ owned_by o (find d j)
  unfolding refresh_heartbeat
  owned_by-refresh_heartbeat force before after l d o j = ground (
    arith,
    law.find-update_heartbeat l.identifier l.owner d j,
    owned_by-beat o (s.now d) (find d j),
  )

  -- A heartbeat returns the same lease with a later reading, or the lease is lost.
  abbrev pub Continues : Lease → Result LeaseError Lease → Type 0
  Continues l (ok l') = (l'.identifier ≡ l.identifier) × (l'.owner ≡ l.owner)
  Continues l (err e) = e ≡ lease_lost

  pub refresh_heartbeat-Continues :
      (force : Bool) (before after : ℕ) (l : Lease) (d : Db)
      → Continues l (refresh_heartbeat s force before after l d).0
  unfolding refresh_heartbeat
  refresh_heartbeat-Continues force before after l d = ground arith
