-- ===== src/Worker/State/Effect.antt =====
-- What a state message changes.
use rpi_io_t_server_project.Base.{
  String, ◌≡◌, ◌≢◌, sym, ◌==◌, Bool-cases, ◌⊎◌, refl, inl, inr, none, some, true, false, Option,
  Option-cases, ap, ◌∙◌, nat_eq, string_eq, eq_iff, arith,
}
use rpi_io_t_server_project.Base.Outcome.{Result-cases}
use rpi_io_t_server_project.Base.Exec.{ok}
use rpi_io_t_server_project.Json.{Json, get, get_or, str}
use rpi_io_t_server_project.Base.Int.{ℤ, pos, negsuc}
use rpi_io_t_server_project.Clock.{parse_iso8601}
use rpi_io_t_server_project.Columns.{nullable_text, int4}
use rpi_io_t_server_project.Models.{Db, Gateway}
use rpi_io_t_server_project.Platform.{Platform, Uuid, Time}
use rpi_io_t_server_project.Session.{Session, in_session, open_session}
use rpi_io_t_server_project.Worker.Heartbeat.{get_gateway, update_gateway}
use rpi_io_t_server_project.Worker.Heartbeat.Effect.{
  get_gateway-update_gateway, get_gateway-update_gateway_self,
}
use rpi_io_t_server_project.Worker.State.{
  Reported, set_reported, reported, known_status, last_seen, is_text, version, config_version,
  member, handle,
}

-- A status that the worker writes.
abbrev pub IsKnown : String → Type 0
IsKnown s = (s ≡ "online") ⊎ ((s ≡ "offline") ⊎ (s ≡ "shutdown"))

known_status-IsKnown : (v : Json) → IsKnown (known_status v)
unfolding known_status
known_status-IsKnown (Json.str s) =
    ground (arith, eq_iff s "online", eq_iff s "offline", eq_iff s "shutdown")
known_status-IsKnown Json.null = inr (inl refl)
known_status-IsKnown (Json.bool b) = inr (inl refl)
known_status-IsKnown (Json.int n) = inr (inl refl)
known_status-IsKnown (Json.float d) = inr (inl refl)
known_status-IsKnown (Json.arr vs) = inr (inl refl)
known_status-IsKnown (Json.obj fs) = inr (inl refl)

known_status_named : (s : String) → IsKnown s → known_status (str s) ≡ s
unfolding known_status
known_status_named s (inl e) = rw e refl
known_status_named s (inr (inl e)) = rw e refl
known_status_named s (inr (inr e)) = rw e refl

-- A version column after a message: it keeps its value where the body does not name it.
abbrev pub IsVersion : Platform → Option Json → Option String → Option String → Type 0
IsVersion p none old new = new ≡ old
IsVersion p (some Json.null) old new = new ≡ none
IsVersion p (some (Json.str s)) old new =
    (kept : String) × (p.text_column (some 64) s ≡ some kept) × (new ≡ some kept)
IsVersion p (some _) old new = ⊥

-- The config version after a message: a whole number or a Boolean sets it, anything else does not.
abbrev pub IsConfig : Option Json → ℤ → ℤ → Type 0
IsConfig (some (Json.int n)) old new = new ≡ n
IsConfig (some (Json.bool true)) old new = new ≡ pos 1
IsConfig (some (Json.bool false)) old new = new ≡ pos 0
IsConfig _ old new = new ≡ old

version_of :
    (p : Platform) (now : Time) (v : Option Json) (old new : Option String)
    → version p now v old ≡ ok new
    → IsVersion p v old new
unfolding version nullable_text
version_of p now none old new h = ground arith
version_of p now (some Json.null) old new h = ground arith
version_of p now (some (Json.str s)) old new h = elim (Option-cases (p.text_column (some 64) s)) [
  | inl refused ↦ absurd (ground arith)
  | inr (kept, e) ↦ (kept, e, ground arith)
]
version_of p now (some (Json.bool b)) old new h = absurd (ground arith)
version_of p now (some (Json.int n)) old new h = absurd (ground arith)
version_of p now (some (Json.float x)) old new h = absurd (ground arith)
version_of p now (some (Json.arr vs)) old new h = absurd (ground arith)
version_of p now (some (Json.obj fs)) old new h = absurd (ground arith)

config_of :
    (p : Platform) (now : Time) (v : Option Json) (old new : ℤ)
    → config_version p now v old ≡ ok new
    → IsConfig v old new
unfolding config_version int4
config_of p now none old new h = ground arith
config_of p now (some (Json.int (pos n))) old new h = ground arith
config_of p now (some (Json.int (negsuc n))) old new h = ground arith
config_of p now (some (Json.bool true)) old new h = ground arith
config_of p now (some (Json.bool false)) old new h = ground arith
config_of p now (some Json.null) old new h = ground arith
config_of p now (some (Json.str s)) old new h = ground arith
config_of p now (some (Json.float x)) old new h = ground arith
config_of p now (some (Json.arr vs)) old new h = ground arith
config_of p now (some (Json.obj fs)) old new h = ground arith

module _ (p : Platform) (now : Time) (body : Json) where
  pub reported_reads : (gw : Gateway) (s : Session) → (reported p now body gw s).1 ≡ s
  unfolding reported
  reported_reads gw s = ground arith

  -- The time last seen after a message: its own time where it says `online`, the server's where
  -- the broker reports a loss, and otherwise the old one.
  abbrev pub IsSeen : Json → Option Time → Option Time → Type 0
  IsSeen given old new =
      (given ≡ str "online"
        → (stamp : Json) × (ts : Time) × (get body "timestamp" ≡ ok stamp)
          × (parse_iso8601 p now stamp ≡ ok ts)
          × (new ≡ some ts))
      × (given ≡ str "offline" → get body "reason" ≡ ok (str "lwt") → new ≡ some now)
      × (given ≡ str "offline" → get body "reason" ≢ ok (str "lwt") → new ≡ old)
      × (given ≢ str "online" → given ≢ str "offline" → new ≡ old)

  is_text_not : (v : Json) (t : String) → v ≢ str t → is_text v t ≡ false
  unfolding is_text
  is_text_not (str s) t ne = elim (Bool-cases (s == t)) [
    | inl same ↦ absurd (ne (ap str ((eq_iff s t).0 same)))
    | inr differs ↦ differs
  ]
  is_text_not Json.null t ne = refl
  is_text_not (Json.bool b) t ne = refl
  is_text_not (Json.int n) t ne = refl
  is_text_not (Json.float x) t ne = refl
  is_text_not (Json.arr vs) t ne = refl
  is_text_not (Json.obj fs) t ne = refl

  seen_online :
      (old new : Option Time)
      → last_seen p now body (str "online") old ≡ ok new
      → (stamp : Json) × (ts : Time) × (get body "timestamp" ≡ ok stamp)
        × (parse_iso8601 p now stamp ≡ ok ts)
        × (new ≡ some ts)
  unfolding last_seen is_text
  seen_online old new h = elim (Result-cases (get body "timestamp")) [
    | inl (e, refused) ↦ absurd (ground arith)
    | inr (stamp, given) ↦ elim (Result-cases (parse_iso8601 p now stamp)) [
      | inl (e, refused) ↦ absurd (ground arith)
      | inr (ts, parsed) ↦ (stamp, ts, given, parsed, ground arith)
    ]
  ]

  seen_lost :
      (old new : Option Time)
      → last_seen p now body (str "offline") old ≡ ok new
      → get body "reason" ≡ ok (str "lwt")
      → new ≡ some now
  unfolding last_seen is_text
  seen_lost old new h lost = ground arith

  seen_left :
      (old new : Option Time)
      → last_seen p now body (str "offline") old ≡ ok new
      → get body "reason" ≢ ok (str "lwt")
      → new ≡ old
  unfolding last_seen is_text
  seen_left old new h left = elim (Result-cases (get body "reason")) [
    | inl (e, refused) ↦ absurd (ground arith)
    | inr (reason, given) ↦
        let no = is_text_not reason "lwt" (λ e. left (given ∙ ap ok e)) in ground (arith, no)
  ]

  seen_other :
      (given : Json) (old new : Option Time)
      → last_seen p now body given old ≡ ok new
      → given ≢ str "online"
      → given ≢ str "offline"
      → new ≡ old
  unfolding last_seen
  seen_other given old new h on off =
      ground (arith, is_text_not given "online" on, is_text_not given "offline" off)

  seen_of :
      (given : Json) (old new : Option Time)
      → last_seen p now body given old ≡ ok new
      → IsSeen given old new
  seen_of given old new h =
      let at = λ (v : Json). last_seen p now body v old in
      (
        λ e. seen_online old new (sym (ap at e) ∙ h),
        λ e. seen_lost old new (sym (ap at e) ∙ h),
        λ e. seen_left old new (sym (ap at e) ∙ h),
        seen_other given old new h,
      )

  -- What the columns are when a message is read.
  reported_columns :
      (gw : Gateway) (s : Session) (columns : Reported)
      → (reported p now body gw s).0 ≡ ok columns
      → (v : Json) × (get_or body "status" (str "online") ≡ ok v)
        × (columns.status ≡ known_status v)
        × (last_seen p now body v gw.last_seen_at ≡ ok columns.last_seen_at)
        × (version p now (member "app_version" body) gw.app_version ≡ ok columns.app_version)
        × (version p now (member "firmware_version" body) gw.firmware_version
            ≡ ok columns.firmware_version)
        × (config_version p now (member "config_version" body) gw.config_version
            ≡ ok columns.config_version)
  unfolding reported
  reported_columns gw s columns h = ground arith

  module _ (db : Db) where
    set_elsewhere :
        (j k : Uuid) (columns : Reported)
        → j ≢ k
        → get_gateway k (update_gateway j (set_reported columns) db) ≡ get_gateway k db
    set_elsewhere j k columns = get_gateway-update_gateway j k (set_reported columns) db (λ g. refl)

    -- A state message of one gateway, whatever its body says, leaves every other gateway as it was
    -- in the committed database.
    pub state_off :
        (j k : Uuid)
        → j ≢ k
        → get_gateway k (in_session (handle p now j body) db).1 ≡ get_gateway k db
    unfolding handle in_session
    state_off j k ne = grind (arith, set_elsewhere, reported_reads)

    -- What a message has made of the row of its gateway.
    pub record IsReported (g after : Gateway) : Type 0 where
      pub given : Json
      pub asked : get_or body "status" (str "online") ≡ ok given
      pub known : IsKnown after.status
      pub named : (s : String) → given ≡ str s → IsKnown s → after.status ≡ s
      pub seen : IsSeen given g.last_seen_at after.last_seen_at
      pub app_version : IsVersion p (member "app_version" body) g.app_version after.app_version
      pub firmware_version :
          IsVersion p (member "firmware_version" body) g.firmware_version after.firmware_version
      pub config_version :
          IsConfig (member "config_version" body) g.config_version after.config_version
      pub others : after ≡ record g {
        status = after.status;
        app_version = after.app_version;
        firmware_version = after.firmware_version;
        config_version = after.config_version;
        last_seen_at = after.last_seen_at;
      }

    -- A state message that is handled without an error changes of its gateway only five columns.
    -- The status is `online`, `offline` or `shutdown`, and the one that the body names if it names
    -- one of these. Each version is the one that the body has under its own key as the column
    -- keeps it, none for null, and the old one if the key is missing. The config version is the
    -- whole number or Boolean of its key, and otherwise the old one. The time last seen is the
    -- body's timestamp if the status given is `online` or missing, the server's time if it is
    -- `offline` and the reason is `lwt`, and otherwise the old one.
    pub state_on :
        (k : Uuid) (g : Gateway)
        → get_gateway k db ≡ some g
        → (handle p now k body (open_session db)).0 ≡ ok tt
        → (after : Gateway) × (get_gateway k (in_session (handle p now k body) db).1 ≡ some after)
          × IsReported g after
    unfolding handle in_session
    state_on k g found h =
        let r = reported p now body g (open_session db) in
        elim (Result-cases r.0) [
          | inl (e, refused) ↦ absurd (ground (arith, reported_reads g (open_session db)))
          | inr (columns, read) ↦
              let (v, given, status, seen, app, firmware, config) =
                reported_columns g (open_session db) columns read in
              (
                set_reported columns g,
                ground (
                  arith,
                  reported_reads g (open_session db),
                  get_gateway-update_gateway_self k (set_reported columns) db g (λ g. refl) found,
                ),
                record {
                  given = v;
                  asked = given;
                  known = rw status (known_status-IsKnown v);
                  named = λ s e k. status ∙ (ap known_status e ∙ known_status_named s k);
                  seen = seen_of v g.last_seen_at columns.last_seen_at seen;
                  app_version = version_of p now _ _ _ app;
                  firmware_version = version_of p now _ _ _ firmware;
                  config_version = config_of p now _ _ _ config;
                  others = refl;
                },
              )
        ]
