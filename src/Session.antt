-- ===== src/Session.antt =====
-- server/app/db.py: a database session. The statements of a session see what it has written; others
-- see what it has committed. Closing a session drops what was not committed.
use rpi_io_t_server_project.Base.{List, [], ◌∷◌, Option, none, some, Bool, if◌then◌else◌}
use rpi_io_t_server_project.Base.Exec.{
  Exec, Result, ok, raised, modify, integrity_error, multiple_results,
}
use rpi_io_t_server_project.Models.{Db}

pub record Session : Type 0 where
  pub committed : Db
  pub working : Db

-- `async with get_sessionmaker()() as session`: a new session on the database.
abbrev pub open_session : Db → Session
open_session db = record { committed = db; working = db }

abbrev pub read : {A : Type 0} → (Db → A) → Exec Session A
read f s = (ok (f s.working), s)

-- `await session.commit()`
abbrev pub commit : Exec Session (Unit {0})
commit s = (ok tt, record s { committed = s.working })

-- A statement that writes.
abbrev pub write : (Db → Db) → Exec Session (Unit {0})
write f = modify (λ s. record s { working = f s.working })

-- A statement that writes if the constraints of its table hold, and raises `IntegrityError` if not.
-- The source's `session.add` delays the INSERT to the next query or commit; nothing that another
-- process could see lies between.
abbrev pub write_checked : (Db → Bool) → (Db → Db) → Exec Session (Unit {0})
write_checked check f s =
    if check s.working
    then (ok tt, record s { working = f s.working })
    else (raised integrity_error, s)

-- A whole session: how it ended, and the database that it leaves.
unfoldable pub in_session : {A : Type 0} → Exec Session A → Db → Result A × Db
in_session m db = let (r, s) = m (open_session db) in (r, s.committed)

-- `res.scalar_one_or_none()`
unfoldable pub scalar_one_or_none {ℓ} : {A : Type ℓ} → List A → Result (Option A)
scalar_one_or_none [] = ok none
scalar_one_or_none (x ∷ []) = ok (some x)
scalar_one_or_none (x ∷ y ∷ rest) = raised multiple_results
