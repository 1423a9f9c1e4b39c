-- ===== src/Worker/CommandResponse/Isolation.antt =====
-- What a response can change of the commands of other gateways, for the handler of CommandResponse.
use rpi_io_t_server_project.Base.{
  String, ◌≡◌, ◌≢◌, refl, ap, some, ◌==◌, nat_eq, string_eq, eq_iff, arith,
}
use rpi_io_t_server_project.Base.Unique.{find?-update_off}
use rpi_io_t_server_project.Json.{Json}
use rpi_io_t_server_project.Models.{Db, Command}
use rpi_io_t_server_project.Platform.{Platform, Uuid, Time}
use rpi_io_t_server_project.Session.{in_session, open_session}
use rpi_io_t_server_project.Worker.CommandResponse.{
  get_command, update_command, answered, respond, handle,
}

-- The UPDATE of one command leaves the others alone.
pub get_command-update_command :
    (j k : String) (f : Command → Command) (db : Db)
    → ((c : Command) → (f c).id ≡ c.id)
    → j ≢ k
    → get_command k (update_command j f db) ≡ get_command k db
unfolding get_command update_command
get_command-update_command j k f db keeps ne =
    find?-update_off (λ (c : Command). c.id == k) (λ c. c.id == j) f db.commands
      (λ c. ap (λ i. i == k) (keeps c)) (λ c here. ground (arith, eq_iff c.id k, eq_iff c.id j))

answered_elsewhere :
    (j k : String) (status : String) (response : Json) (t : Time) (db : Db)
    → j ≢ k
    → get_command k (update_command j (answered status response t) db) ≡ get_command k db
unfolding answered
answered_elsewhere j k status response t db =
    get_command-update_command j k (answered status response t) db (λ c. refl)

module _ (p : Platform) (now : Time) where
  respond_isolated :
      (g : Uuid) (body : Json) (j k : String) (cmd : Command) (db : Db)
      → get_command k db ≡ some cmd
      → cmd.gateway_id ≢ g
      → get_command k (respond p now g body j (get_command j db) (open_session db)).1.committed
        ≡ some cmd
  unfolding respond
  respond_isolated g body j k cmd db found other = grind (arith, eq_iff j k, answered_elsewhere)

  -- A command response from one gateway, whatever its body says, leaves every command that was
  -- sent to another gateway as it was in the committed database.
  pub handle_isolated :
      (g : Uuid) (body : Json) (k : String) (cmd : Command) (db : Db)
      → get_command k db ≡ some cmd
      → cmd.gateway_id ≢ g
      → get_command k (in_session (handle p now g body) db).1 ≡ some cmd
  unfolding handle in_session
  handle_isolated g body k cmd db found other =
      grind (arith, λ (j : String). respond_isolated g body j k cmd db found other)
