-- ===== src/Migrations/ChannelSlug.antt =====
-- server/alembic/versions/0002_channel_slug.py: the slugs of the channels, and the format of serials.
use rpi_io_t_server_project.Base.{List, [], ◌∷◌}
use rpi_io_t_server_project.Migrations.Ddl.{
  Ddl, optional, varchar, add_column, backfill, set_not_null, create_check, create_unique,
  drop_check, drop_unique, drop_column,
}

unfoldable pub upgrade : List Ddl
upgrade =
    add_column "sensor_channels" (optional "slug" (varchar 64))
    ∷ backfill "sensor_channels"
    ∷ set_not_null "sensor_channels" "slug"
    ∷ create_check "sensor_channels" "ck_sensor_channels_slug_format" "slug ~ '^[A-Za-z0-9_-]+$'"
    ∷ create_unique "sensor_channels" "uq_sensor_channels_gateway_slug" ("gateway_id" ∷ "slug" ∷ [])
    ∷ add_column "actuator_channels" (optional "slug" (varchar 64))
    ∷ backfill "actuator_channels"
    ∷ set_not_null "actuator_channels" "slug"
    ∷ create_check "actuator_channels" "ck_actuator_channels_slug_format"
        "slug ~ '^[A-Za-z0-9_-]+$'"
    ∷ create_unique "actuator_channels" "uq_actuator_channels_gateway_slug"
        ("gateway_id" ∷ "slug" ∷ [])
    ∷ create_check "gateways" "ck_gateways_serial_number_format"
        "serial_number ~ '^[A-Za-z0-9_-]+$' AND length(serial_number) <= 64"
    ∷ []

unfoldable pub downgrade : List Ddl
downgrade =
    drop_check "gateways" "ck_gateways_serial_number_format"
    ∷ drop_unique "actuator_channels" "uq_actuator_channels_gateway_slug"
    ∷ drop_check "actuator_channels" "ck_actuator_channels_slug_format"
    ∷ drop_column "actuator_channels" "slug"
    ∷ drop_unique "sensor_channels" "uq_sensor_channels_gateway_slug"
    ∷ drop_check "sensor_channels" "ck_sensor_channels_slug_format"
    ∷ drop_column "sensor_channels" "slug"
    ∷ []
