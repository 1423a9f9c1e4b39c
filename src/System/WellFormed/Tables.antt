-- ===== src/System/WellFormed/Tables.antt =====
-- What the statements do to keys, and to references between tables.
use rpi_io_t_server_project.Base.{
  ℕ, ◌+◌, ◌≡◌, refl, ap, ◌∙◌, Bool, true, false, ◌||◌, any, update, delete, List, [], ◌∷◌, ◌++◌,
  ◌==◌, nat_eq, string_eq, if◌then◌else◌, Bool-cases, inl, inr, arith, ltb,
}
use mathlib.Core.Path.{fun_ext}
use rpi_io_t_server_project.Base.Unique.{Unique}
use rpi_io_t_server_project.Models.{Gateway, Command, TelemetryLatest, Telemetry}
use rpi_io_t_server_project.Platform.{Uuid}
use rpi_io_t_server_project.Worker.Telemetry.Upsert.{same_key, overwrite, upsert}
use rpi_io_t_server_project.Worker.Telemetry.Newest.{same_key_comm, same_key-overwrite}

-- A row of another key is not the row of the upsert.
any-upsert :
    (x new : TelemetryLatest) (rows : List TelemetryLatest)
    → any (same_key x) rows ≡ false
    → same_key x new ≡ false
    → any (same_key x) (upsert new rows) ≡ false
unfolding any upsert
any-upsert x new [] h other = ground arith
any-upsert x new (old ∷ rows) h other = ground (
  arith,
  any-upsert x new rows,
  same_key_comm x (overwrite old new),
  same_key-overwrite old new x,
  same_key_comm old x,
)

pub upsert-Unique :
    (new : TelemetryLatest) (rows : List TelemetryLatest)
    → Unique same_key rows
    → Unique same_key (upsert new rows)
unfolding upsert any
upsert-Unique new [] u = (refl, tt)
upsert-Unique new (old ∷ rows) (u, us) = elim (Bool-cases (same_key old new)) [
  | inl same ↦ rw same (ap (λ q. any q rows) (fun_ext (same_key-overwrite old new)) ∙ u, us)
  | inr other ↦ rw other (any-upsert old new rows u other, upsert-Unique new rows us)
]

-- The gateway of a command is in the table.
abbrev pub owner : List Gateway → Command → Bool
owner gateways c = any (λ (g : Gateway). g.id == c.gateway_id) gateways

abbrev pub AllOwned : List Gateway → List Command → Type 0
AllOwned gateways [] = Unit
AllOwned gateways (c ∷ cs) = (owner gateways c ≡ true) × AllOwned gateways cs

pub AllOwned-mono :
    (gs gs' : List Gateway) (cs : List Command)
    → ((c : Command) → owner gs c ≡ true → owner gs' c ≡ true)
    → AllOwned gs cs
    → AllOwned gs' cs
AllOwned-mono gs gs' [] h o = tt
AllOwned-mono gs gs' (c ∷ cs) h (o, os) = (h c o, AllOwned-mono gs gs' cs h os)

pub AllOwned-append :
    (gs : List Gateway) (cs : List Command) (c : Command)
    → AllOwned gs cs
    → owner gs c ≡ true
    → AllOwned gs (cs ++ c ∷ [])
AllOwned-append gs [] c os o = (o, tt)
AllOwned-append gs (d ∷ cs) c (h, os) o = (h, AllOwned-append gs cs c os o)

owner_if :
    (gs : List Gateway) (b : Bool) (f : Command → Command) (c : Command)
    → (f c).gateway_id ≡ c.gateway_id
    → owner gs c ≡ true
    → owner gs (if b then f c else c) ≡ true
owner_if gs true f c e o = rw e o
owner_if gs false f c e o = o

pub AllOwned-update :
    (gs : List Gateway) (p : Command → Bool) (f : Command → Command) (cs : List Command)
    → ((c : Command) → (f c).gateway_id ≡ c.gateway_id)
    → AllOwned gs cs
    → AllOwned gs (update p f cs)
unfolding update
AllOwned-update gs p f [] e os = tt
AllOwned-update gs p f (c ∷ cs) e (o, os) =
    (owner_if gs (p c) f c (e c) o, AllOwned-update gs p f cs e os)

-- A gateway that is not the owner may go.
owner-delete :
    (k : Uuid) (gs : List Gateway) (c : Command)
    → c.gateway_id == k ≡ false
    → owner (delete (λ (g : Gateway). g.id == k) gs) c ≡ owner gs c
unfolding any delete
owner-delete k [] c h = refl
owner-delete k (g ∷ gs) c h = ground (arith, owner-delete k gs c)

pub AllOwned-delete :
    (k : Uuid) (gs : List Gateway) (cs : List Command) (q : Command → Bool)
    → any (λ (c : Command). c.gateway_id == k || q c) cs ≡ false
    → AllOwned gs cs
    → AllOwned (delete (λ (g : Gateway). g.id == k) gs) cs
unfolding any
AllOwned-delete k gs [] q h os = tt
AllOwned-delete k gs (c ∷ cs) q h (o, os) =
    (owner-delete k gs c (ground arith) ∙ o, AllOwned-delete k gs cs q (ground arith) os)

-- The ids that the sequence has given out.
abbrev pub AllBelow : ℕ → List Telemetry → Type 0
AllBelow n [] = Unit
AllBelow n (r ∷ rs) = (ltb r.id n ≡ true) × AllBelow n rs

pub AllBelow-append :
    (n : ℕ) (rs : List Telemetry) (r : Telemetry)
    → AllBelow n rs
    → r.id ≡ n
    → AllBelow (n + 1) (rs ++ r ∷ [])
AllBelow-append n [] r h e = (ground arith, tt)
AllBelow-append n (x ∷ rs) r (h, hs) e = (ground arith, AllBelow-append n rs r hs e)

abbrev pub same_id : Telemetry → Telemetry → Bool
same_id a b = a.id == b.id

pub fresh_id :
    (n : ℕ) (rs : List Telemetry) (r : Telemetry)
    → AllBelow n rs
    → r.id ≡ n
    → any (λ x. same_id x r) rs ≡ false
unfolding any
fresh_id n [] r h e = refl
fresh_id n (x ∷ rs) r (h, hs) e = ground (arith, fresh_id n rs r hs e)
