-- ===== src/Leases/System.antt =====
-- One writer and one fsck run beside any other processes, as a step relation.
use httk_data.Prelude.{ℕ, ◌≡◌, Bool, true, none}
use httk_data.Leases.Server
use httk_data.Leases.Server.{Server, Documented, DocumentId, is_fresh_writer, owned_by}
use httk_data.Leases.Actions.{LeaseTiming, stale_after}
use httk_data.Leases.Writer.{Writer, writer_step, writer_beat, writer_finish, is_registered}
use httk_data.Leases.Fsck.{Fsck, fsck_step, fsck_finish, is_installed}

-- The draws of the two processes: the writer's UUID and owner, the owner and the flag of fsck.
pub record Draws : Type 0 where
  pub uuid : ℕ
  pub writer_owner : ℕ
  pub fsck_owner : ℕ
  pub force : Bool
  pub timing : LeaseTiming

pub record System (s : Server) : Type 0 where
  pub db : s.Db
  pub writer : Writer
  pub fsck : Fsck

module _ (s : Server) (p : Draws) where
  open s use {Db, now, find}
  open p use {uuid, writer_owner, fsck_owner, force, timing}

  -- What the rest of the world leaves alone: the document of this writer, and the fsck lease once
  -- this run has installed it. All else may change, and time may pass.
  pub record Respects (x : System s) (d : Db) : Type 0 where
    pub same_writer : find d (Server.writer uuid) ≡ find x.db (Server.writer uuid)
    pub same_fsck : is_installed x.fsck ≡ true → find d Server.fsck ≡ find x.db Server.fsck

  pub data Step : System s → System s → Type 0 where
    by_writer :
        (x : System s) (monotonic : ℕ)
        → Step x (
            let r = writer_step s uuid writer_owner timing monotonic x.writer x.db in
            record x { db = r.1; writer = r.0 })
    beat :
        (x : System s) (forced : Bool) (before after : ℕ)
        → Step x (
            let r = writer_beat s forced before after x.writer x.db in
            record x { db = r.1; writer = r.0 })
    finish : (x : System s) → Step x (record x { writer = writer_finish s x.writer })
    by_fsck :
        (x : System s) (before after : ℕ)
        → Step x (
            let r = fsck_step s force fsck_owner timing before after x.fsck x.db in
            record x { db = r.1; fsck = r.0 })
    finish_fsck : (x : System s) → Step x (record x { fsck = fsck_finish s x.fsck })
    other : (x : System s) (d : Db) → Respects x d → Step x (record x { db = d })

  -- While the writer is registered, its heartbeat has not reached the age of a stale one.
  abbrev pub Timely : System s → Type 0
  Timely x =
      is_registered x.writer ≡ true
      → is_fresh_writer (now x.db) (stale_after timing) (find x.db (Server.writer uuid)) ≡ true

  pub data Start : System s → Type 0 where
    at_start :
        (d : Db)
        → find d (Server.writer uuid) ≡ none
        → Start (record { db = d; writer = Writer.start; fsck = Fsck.installing })

  -- The runs in which the writer is timely at each state.
  pub data Run : System s → Type 0 where
    here : {x : System s} → Start x → Run x
    next : {x y : System s} → Run x → Step x y → Timely y → Run y
