-- ===== src/Lib.antt =====
-- Verification of the server of the IoT gateway platform, the Python programs under server/.
--
-- Three processes share one PostgreSQL database. The backend (server/app) answers the requests of
-- users and publishes commands to gateways over MQTT. The worker (server/worker) takes the
-- messages of the gateways and writes what they report. The scheduler (server/scheduler) runs
-- three jobs on the database. server/alembic makes its tables.
--
-- Base and its children hold what the modules share: Boolean tests, tables as lists of rows,
-- dicts, sorting, and Exec, the type of code that has a state and may raise; what was written
-- before a raise stays written. Json has the values of Python's json module, Platform what the
-- program takes from the interpreter and the database driver (fromisoformat, loads, float, the
-- column types): these are parameters of every theorem. So are the clocks, new UUIDs, the response
-- to an HTTP request, and python-jose (Auth.Jose).
--
-- Models has the tables of server/app/models.py, and Session the transactions of server/app/db.py:
-- a session has a committed and a working database, and what is not committed is lost when it
-- ends.
--
-- Clock, Columns, Config, Schemas, Jwks and Auth stand for app/utils/time.py, the column types,
-- app/config.py, app/schemas.py, app/utils/jwks.py and app/auth.py. Api has the routers of
-- server/app/routers: Permission (_check_perm), Gateways, Commands with mqtt_publisher.py,
-- Channels (sensor_channels.py, actuator_channels.py), Assets (companies.py, sites.py,
-- sensor_profiles.py) and TelemetryQuery (telemetry.py).
--
-- Worker has worker/handlers: Lookups (_lookups.py), Heartbeat, State, CommandResponse, Telemetry,
-- Topic and Dispatch (__init__.py and the loop of worker/main.py). Scheduler has scheduler/jobs:
-- Offline (offline_detector.py), Timeout (command_timeout.py) and Partitions
-- (partition_manager.py). Migrations has alembic/versions: Ddl, the statements and what they do to
-- a catalog, Initial (0001_initial.py, with its own copy of the loop over the months, which
-- MonthLoop is about) and ChannelSlug (0002_channel_slug.py). The handler of a request or a
-- message is a function into Exec that is composed the way the source composes it; between the two
-- transactions of issue_command, any function on the database stands for the other processes. Each
-- call of time.monotonic() in Lookups takes the next of the readings that the worker's state
-- holds; elsewhere a call of a handler or of get_key reads its clock once.
--
-- System puts the processes together: Writes has the statements that write to the database, Steps
-- the relation of one database to the next (a writing request behind get_current_user, the second
-- transaction of a command, a message, a round of a job of scheduler/main.py) and its closure
-- Reach; Requests, Orders, Messages and Processes show that each operation writes by these
-- statements only. A process sees what the others have committed at the start of each of its
-- transactions. Seed is deploy/scripts/sim-seed.py, with the new UUIDs and the example profile as
-- arguments.
--
-- Hwpx is build_plan_hwpx.py, which writes the planning document as XML: Helpers has its functions
-- with the two counters, Call a call of one of them as a value, Content all calls of the body
-- chapter by chapter, and Render the XML texts. The script fills its texts at once; here a Chunk
-- holds what is filled in, and Render writes it out. The width that floating point gives to equal
-- columns is a parameter.
--
-- All recursion is structural, on the rows of a table, the values of a message, the characters of
-- a text or the number of turns of a loop. The one exception is the printing of numbers in
-- Base.Decimal: a year has fuel for five digits and needs four, and the numbers of the planning
-- document have fuel for twenty and need ten.
--
-- Times are microseconds from 0001-01-01 on, UUIDs are numbers, and floats are their bits. A
-- database is taken as the statements of the source see it: constraints as checks before a write,
-- one statement at a time. Not modelled are the start and stop of the processes, systemd
-- notifications, logging, health checks, connection pools, the other simulation tools, the
-- generator of the planning slides, and the Go and C code that runs on the gateways. Tests has the
-- theorems at concrete inputs.
pub mod Base
pub mod Json
pub mod Platform
pub mod Models
pub mod Session
pub mod Clock
pub mod Columns
pub mod Worker
pub mod Config
pub mod Schemas
pub mod Jwks
pub mod Auth
pub mod Api
pub mod Scheduler
pub mod Migrations
pub mod System
pub mod Seed
pub mod Hwpx
pub mod Tests
