-- ===== src/System/Messages.antt =====
-- The messages of the gateways and the jobs of the scheduler, by the statements that they write.
use rpi_io_t_server_project.Base.{
  ℕ, ◌+◌, ◌≡◌, refl, String, Option, List, [], ◌∷◌, arith, pair_eq, nat_eq,
}
use rpi_io_t_server_project.Base.Exec.{Exec}
use rpi_io_t_server_project.Json.{Json}
use rpi_io_t_server_project.Models.{Db, Gateway}
use rpi_io_t_server_project.Platform.{Platform, Uuid, Time}
use rpi_io_t_server_project.Session.{Session}
use rpi_io_t_server_project.Worker.Lookups.{
  Worker, gateway_uuid_by_serial, sensor_channel_uuid_by_slug,
}
use rpi_io_t_server_project.Worker.Heartbeat
use rpi_io_t_server_project.Worker.Heartbeat.{seen}
use rpi_io_t_server_project.Worker.State
use rpi_io_t_server_project.Worker.State.{Reported, set_reported}
use rpi_io_t_server_project.Worker.State.Effect.{reported_reads}
use rpi_io_t_server_project.Worker.CommandResponse
use rpi_io_t_server_project.Worker.CommandResponse.{answered, respond}
use rpi_io_t_server_project.Worker.Telemetry
use rpi_io_t_server_project.Worker.Telemetry.{
  Measured, measure, insert_telemetry, upsert_latest, store_known, store_value, store_values,
  latest_row,
}
use rpi_io_t_server_project.System.Writes
use rpi_io_t_server_project.System.Writes.{Write, IsClosed, KeepsCommand, KeepsGateway}
use rpi_io_t_server_project.System.Keeps.{Keeps, Keeps-bind, KeepsDb}

module _ (P : Db → Type 0) (closed : IsClosed P) where
  seen-KeepsGateway : (ts : Time) (status : String) → KeepsGateway (seen ts status)
  seen-KeepsGateway ts status = record { id = λ g. refl; serial = λ g. refl }

  answered-KeepsCommand :
      (status : String) (body : Json) (t : Time) → KeepsCommand (answered status body t)
  unfolding answered
  answered-KeepsCommand status body t = record { id = λ c. refl; gateway = λ c. refl }

  set_reported-KeepsGateway : (columns : Reported) → KeepsGateway (set_reported columns)
  set_reported-KeepsGateway columns = record { id = λ g. refl; serial = λ g. refl }

  module _ (p : Platform) (now : Time) where
    pub heartbeat-KeepsDb : (g : Uuid) (body : Json) → KeepsDb P (Heartbeat.handle p now g body)
    unfolding Heartbeat.handle
    heartbeat-KeepsDb g body = record {
      at = λ s good. grind (
        arith,
        λ (d : Db) (ts : Time) (status : String).
            closed.keep d _
              (Writes.change_gateway d g (seen ts status) (seen-KeepsGateway ts status)),
      );
    }

    pub state-KeepsDb : (g : Uuid) (body : Json) → KeepsDb P (State.handle p now g body)
    unfolding State.handle
    state-KeepsDb g body = record {
      at = λ s good. grind (
        arith,
        reported_reads p now body,
        λ (d : Db) (columns : Reported).
            closed.keep d _ (
              Writes.change_gateway d g (set_reported columns) (set_reported-KeepsGateway columns)),
      );
    }

    pub response-KeepsDb :
        (g : Uuid) (body : Json) → KeepsDb P (CommandResponse.handle p now g body)
    unfolding CommandResponse.handle respond
    response-KeepsDb g body = record {
      at = λ s good. grind (
        arith,
        λ (d : Db) (k status : String) (t : Time). closed.keep d _ (
            Writes.change_command d k (answered status body t)
              (answered-KeepsCommand status body t)),
      );
    }

  module _ (p : Platform) where
    measure_reads :
        (k n : Option ℕ) (channel : Uuid) (key v : Json) (s : Session)
        → (measure p k n channel key v s).1 ≡ s
    unfolding measure
    measure_reads k n channel key v s = ground arith

    insert_keeps :
        (gw : Gateway) (gateway_id : Uuid) (ts : Time) (m : Measured) (d : Db)
        → P d
        → P (insert_telemetry gw gateway_id ts m d)
    unfolding insert_telemetry
    insert_keeps gw gateway_id ts m d h = closed.keep d _ (Writes.add_telemetry d _ refl) h

    upsert_keeps :
        (gateway_id : Uuid) (ts : Time) (m : Measured) (d : Db)
        → P d
        → P (upsert_latest gateway_id ts m d)
    unfolding upsert_latest
    upsert_keeps gateway_id ts m d h =
        closed.keep d _ (Writes.set_latest d (latest_row gateway_id ts m)) h

    store_known-KeepsDb :
        (gw : Gateway) (gateway_id : Uuid) (ts : Time) (channel : Uuid) (v : Json)
        → KeepsDb P (store_known p gw gateway_id ts channel v)
    unfolding store_known
    store_known-KeepsDb gw gateway_id ts channel v = record {
      at = λ s good.
          grind (arith, measure_reads, insert_keeps gw gateway_id ts, upsert_keeps gateway_id ts);
    }

  -- What a step of the worker does to its session.
  abbrev pub KeepsWorker : {A : Type 0} → Exec Worker A → Type 0
  KeepsWorker m = Keeps (λ (w : Worker). w.session) P m

  module _ (p : Platform) where
    pub gateway_lookup-KeepsWorker : (serial : String) → KeepsWorker (gateway_uuid_by_serial serial)
    unfolding gateway_uuid_by_serial
    gateway_lookup-KeepsWorker serial = record { at = λ w good. good }

    channel_lookup-KeepsWorker :
        (g : Uuid) (slug : String) → KeepsWorker (sensor_channel_uuid_by_slug g slug)
    unfolding sensor_channel_uuid_by_slug
    channel_lookup-KeepsWorker g slug = record { at = λ w good. good }

    store_value-KeepsWorker :
        (gw : Gateway) (gateway_id : Uuid) (ts : Time) (v : Json)
        → KeepsWorker (store_value p gw gateway_id ts v)
    unfolding store_value
    store_value-KeepsWorker gw gateway_id ts v = record {
      at = λ w good. grind (
        arith,
        λ (s : String). (channel_lookup-KeepsWorker gateway_id s).at,
        λ (c : Uuid). (store_known-KeepsDb p gw gateway_id ts c v).at,
      );
    }

    store_values-KeepsWorker :
        (gw : Gateway) (gateway_id : Uuid) (ts : Time) (vs : List Json) (n : ℕ)
        → KeepsWorker (store_values p gw gateway_id ts vs n)
    unfolding store_values
    store_values-KeepsWorker gw gateway_id ts [] n = record { at = λ w good. good }
    store_values-KeepsWorker gw gateway_id ts (v ∷ vs) n =
        Keeps-bind (λ (w : Worker). w.session) P (store_value-KeepsWorker gw gateway_id ts v)
          (λ stored. store_values-KeepsWorker gw gateway_id ts vs (n + stored))

    pub telemetry-KeepsWorker :
        (now : Time) (gateway_id : Uuid) (body : Json)
        → KeepsWorker (Telemetry.handle p now gateway_id body)
    unfolding Telemetry.handle
    telemetry-KeepsWorker now gateway_id body = record {
      at = λ w good. grind (
        arith,
        λ (gw : Gateway) (ts : Time) (vs : List Json).
            (store_values-KeepsWorker gw gateway_id ts vs 0).at,
        λ (d : Db) (ts : Time).
            closed.keep d _ (
              Writes.change_gateway d gateway_id (seen ts "online")
                (seen-KeepsGateway ts "online")),
      );
    }
