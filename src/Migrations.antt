-- ===== src/Migrations.antt =====
-- server/alembic/versions: the migrations of the database.
pub mod Ddl
pub mod Initial
pub mod ChannelSlug
pub mod MonthLoop
pub mod RoundTrip
