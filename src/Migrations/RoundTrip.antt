-- ===== src/Migrations/RoundTrip.antt =====
-- Upgrading and downgrading a database.
use rpi_io_t_server_project.Base.{
  String, ◌≡◌, refl, ap, ◌∙◌, false, any, all, delete, update, find?, nat_eq, pair_eq, Option, none,
  some, List, map, [], ◌∷◌, ◌++◌, ◌==◌, string_eq, arith,
}
use mathlib.Core.List.{append_assoc}
use rpi_io_t_server_project.Scheduler.Partitions.{Month, wanted}
use rpi_io_t_server_project.Scheduler.Partitions.Months.{IsMonth}
use rpi_io_t_server_project.Migrations.Ddl.{
  Ddl, Table, Catalog, apply_all, exists, referenced, taken, taken_month, create_partition,
}
use rpi_io_t_server_project.Migrations.Initial
use rpi_io_t_server_project.Migrations.ChannelSlug
use rpi_io_t_server_project.Migrations.MonthLoop.{months-wanted, loop_makes, not_month_name}
use rpi_io_t_server_project.Migrations.Initial.Identity.{
  companies_table, sites_table, users_table, user_company_roles_table,
  user_gateway_permissions_table,
}
use rpi_io_t_server_project.Migrations.Initial.Asset.{
  gateway_profiles_table, gateways_table, sensor_profiles_table, sensor_channels_table,
  actuator_channels_table,
}
use rpi_io_t_server_project.Migrations.Initial.Operation.{telemetry_table}

-- Both upgrades, and then both downgrades.
abbrev pub there_and_back : Month → List Ddl
there_and_back now =
    Initial.upgrade now ++ ChannelSlug.upgrade ++ ChannelSlug.downgrade ++ Initial.downgrade

-- The tables of the program.
abbrev pub names : List String
names =
    "companies" ∷ "sites" ∷ "users" ∷ "user_company_roles" ∷ "user_gateway_permissions"
    ∷ "gateway_profiles" ∷ "gateways" ∷ "sensor_profiles" ∷ "sensor_channels" ∷ "actuator_channels"
    ∷ "telemetry" ∷ "telemetry_latest" ∷ "commands" ∷ "audit_logs" ∷ []

-- A catalog has none of these tables, and no table of it refers to one.
abbrev pub AllFree : List String → Catalog → Type 0
AllFree [] base = Unit
AllFree (n ∷ ns) base =
    (exists n base ≡ false) × (taken n base ≡ false) × (referenced n base ≡ false) × AllFree ns base

abbrev partitions_of : Option Catalog → Option (List (Month × Month))
partitions_of result = elim result [
  | none ↦ none
  | some tables ↦ elim (find? (λ (t : Table). t.name == "telemetry") tables) [
    | none ↦ none
    | some t ↦ some t.partitions
  ]
]

-- The partitions of `telemetry` after the statements of a list.
abbrev pub telemetry_partitions : List Ddl → Catalog → Option (List (Month × Month))
telemetry_partitions ds base = partitions_of (apply_all ds base)

-- The tables that the first migration has made when its loop over the months begins.
abbrev made_telemetry : Table
made_telemetry = record telemetry_table {
  indexes = ("ix_telemetry_gw_ch_ts", "gateway_id" ∷ "sensor_channel_id" ∷ "ts DESC" ∷ []) ∷ [];
  default_partition = some "telemetry_default";
}

abbrev made_before : Catalog → Catalog
made_before base =
    (record actuator_channels_table {
      indexes = ("ix_actuator_channels_gateway", "gateway_id" ∷ []) ∷ [];
    })
    ∷ (record sensor_channels_table {
      indexes = ("ix_sensor_channels_gateway", "gateway_id" ∷ []) ∷ [];
    })
    ∷ sensor_profiles_table
    ∷ (record gateways_table {
      indexes =
          ("ix_gateways_company", "company_id" ∷ []) ∷ ("ix_gateways_site", "site_id" ∷ []) ∷ [];
    })
    ∷ gateway_profiles_table
    ∷ user_gateway_permissions_table
    ∷ user_company_roles_table
    ∷ users_table
    ∷ sites_table
    ∷ companies_table
    ∷ base

apply_all-append :
    (ds es : List Ddl) (c c' : Catalog)
    → apply_all ds c ≡ some c'
    → apply_all (ds ++ es) c ≡ apply_all es c'
unfolding apply_all
apply_all-append [] es c c' h = ground arith
apply_all-append (d ∷ ds) es c c' h = grind (arith, apply_all-append ds es)

module _ (base : Catalog) (free : AllFree names base)
    (no_default : taken "telemetry_default" base ≡ false) where
  tables_make : apply_all Initial.tables base ≡ some (made_telemetry ∷ made_before base)
  unfolding apply_all Initial.tables any all
  tables_make = ground arith

  later_keep :
      (parts : List (Month × Month))
      → telemetry_partitions
          (Initial.later_tables ++ ChannelSlug.upgrade)
          (record made_telemetry { partitions = parts } ∷ made_before base)
        ≡ some parts
  unfolding apply_all Initial.later_tables ChannelSlug.upgrade any all delete update find?
  later_keep parts = ground arith

  -- No table of the first migration has the name of a partition of a month.
  month_free :
      (month : Month)
      → taken_month month (made_telemetry ∷ made_before base) ≡ taken_month month base
  unfolding any
  month_free month = rw (
    not_month_name "telemetry" month refl,
    not_month_name "actuator_channels" month refl,
    not_month_name "sensor_channels" month refl,
    not_month_name "sensor_profiles" month refl,
    not_month_name "gateways" month refl,
    not_month_name "gateway_profiles" month refl,
    not_month_name "user_gateway_permissions" month refl,
    not_month_name "user_company_roles" month refl,
    not_month_name "users" month refl,
    not_month_name "sites" month refl,
    not_month_name "companies" month refl,
  )

  months_free :
      (parts : List (Month × Month))
      → any (λ (part : Month × Month). taken_month part.0 (made_telemetry ∷ made_before base)) parts
        ≡ any (λ (part : Month × Month). taken_month part.0 base) parts
  unfolding any
  months_free [] = refl
  months_free (part ∷ parts) = rw (month_free part.0, months_free parts)

  upgrade_parts :
      (now : Month)
      → Initial.upgrade now ++ ChannelSlug.upgrade
        ≡ Initial.tables
          ++ (map (create_partition "telemetry") (Initial.months 4 now)
              ++ (Initial.later_tables ++ ChannelSlug.upgrade))
  unfolding Initial.upgrade
  upgrade_parts now = rw (append_assoc, append_assoc)

-- For a month between 1 and 12, on every catalog in which none of the fourteen names of tables and
-- the name telemetry_default is taken, no table refers to one of the fourteen, and no table has
-- the name of one of the four partitions or such a partition: both upgrades succeed, and
-- `telemetry` then has exactly the four partitions that the loop of the partition manager asks for
-- in that month.
pub upgrade_partitions :
    (now : Month) (base : Catalog)
    → IsMonth now
    → AllFree names base
    → taken "telemetry_default" base ≡ false
    → any (λ (part : Month × Month). taken_month part.0 base) (wanted 4 now) ≡ false
    → telemetry_partitions (Initial.upgrade now ++ ChannelSlug.upgrade) base ≡ some (wanted 4 now)
upgrade_partitions (y, m) base month free no_default no_months =
    let made = made_telemetry ∷ made_before base in
    let looped = record made_telemetry { partitions = wanted 4 (y, m) } ∷ made_before base in
    let made_by_loop =
      loop_makes y m month made_telemetry (made_before base) refl refl
        (months_free base free no_default (wanted 4 (y, m)) ∙ no_months) in
    let e : apply_all (Initial.upgrade (y, m) ++ ChannelSlug.upgrade) base
        ≡ apply_all (Initial.later_tables ++ ChannelSlug.upgrade) looped =
      rw
        (
          upgrade_parts base free no_default (y, m),
          months-wanted y m month,
          apply_all-append Initial.tables
              (map (create_partition "telemetry") (wanted 4 (y, m))
                ++ (Initial.later_tables ++ ChannelSlug.upgrade))
              base made (tables_make base free no_default),
        )
        (apply_all-append (map (create_partition "telemetry") (wanted 4 (y, m)))
          (Initial.later_tables ++ ChannelSlug.upgrade) made looped made_by_loop) in
    ap partitions_of e ∙ later_keep base free no_default (wanted 4 (y, m))
