-- ===== src/Api/Assets.antt =====
-- server/app/routers/companies.py, sites.py and sensor_profiles.py.
use rpi_io_t_server_project.Base.{
  String, Bool, true, not, ◌&&◌, leb, any, find?, select, Option, none, some, List, [], ◌∷◌, ◌++◌,
  ◌==◌, nat_eq, if◌then◌else◌,
}
use rpi_io_t_server_project.Base.Sort.{order_by}
use rpi_io_t_server_project.Base.Exec.{Exec, http, ◌>>=◌, ◌>>◌, pure, raise, lift}
use rpi_io_t_server_project.Columns.{text_value}
use rpi_io_t_server_project.Json.{Json}
use rpi_io_t_server_project.Models.{Company, Site, SensorProfile}
use rpi_io_t_server_project.Platform.{Platform, Uuid, Time}
use rpi_io_t_server_project.Schemas.{CompanyIn, SiteIn, SensorProfileIn, valid_company}
use rpi_io_t_server_project.Session.{Session, read, write_checked, commit}

-- A row that must be there.
unfoldable pub or_404 : {A : Type 0} → Option A → Exec Session A
or_404 none = raise (http 404)
or_404 (some a) = pure a

module _ (p : Platform) where
  unfoldable pub create_company : Uuid → Time → CompanyIn → Exec Session Company
  create_company company_id now body = if not (valid_company body) then raise (http 422) else do
    status ← lift (text_value p (some 32) body.status)
    let company : Company = record {
      id = company_id;
      name = body.name;
      company_type = body.company_type;
      status = status;
      created_at = now;
      updated_at = now;
    }
    write_checked (λ db. not (any (λ (c : Company). c.id == company_id) db.companies))
        (λ db. record db { companies = db.companies ++ company ∷ [] })
    commit
    pure company

unfoldable pub list_companies : Exec Session (List Company)
list_companies = read (λ db. order_by (λ a b. leb a.created_at b.created_at) db.companies)

unfoldable pub get_company : Uuid → Exec Session Company
unfolding or_404
get_company company_id = do
  found ← read (λ db. find? (λ (c : Company). c.id == company_id) db.companies)
  or_404 found

unfoldable pub create_site : Uuid → Time → SiteIn → Exec Session Site
create_site site_id now body = do
  let site : Site = record {
    id = site_id;
    company_id = body.company_id;
    name = body.name;
    address = body.address;
    latitude = body.latitude;
    longitude = body.longitude;
    created_at = now;
  }
  write_checked
      (λ db.
        not (any (λ (s : Site). s.id == site_id) db.sites)
        && any (λ (c : Company). c.id == body.company_id) db.companies)
      (λ db. record db { sites = db.sites ++ site ∷ [] })
  commit
  pure site

abbrev of_company : Option Uuid → Site → Bool
of_company none s = true
of_company (some k) s = s.company_id == k

unfoldable pub list_sites : Option Uuid → Exec Session (List Site)
list_sites company_id = read (λ db.
    order_by (λ a b. leb a.created_at b.created_at) (select (of_company company_id) db.sites))

module _ (p : Platform) (schema_valid : Json → Bool) (name_le : String → String → Bool) where
  -- `schema_valid` is `jsonschema.validate` against shared/sensor_profile_schema.json.
  unfoldable pub create_sensor_profile : Uuid → Time → SensorProfileIn → Exec Session SensorProfile
  create_sensor_profile profile_id now body =
      if not (schema_valid body.profile_schema) then raise (http 422) else do
        protocol ← lift (text_value p (some 32) body.protocol)
        let profile : SensorProfile = record {
          id = profile_id;
          name = body.name;
          vendor = body.vendor;
          model = body.model;
          protocol = protocol;
          description = body.description;
          profile_schema = body.profile_schema;
          enabled = body.enabled;
          created_at = now;
        }
        write_checked
            (λ db. not (any (λ (s : SensorProfile). s.id == profile_id) db.sensor_profiles))
            (λ db. record db { sensor_profiles = db.sensor_profiles ++ profile ∷ [] })
        commit
        pure profile

  -- The enabled profiles by name, in the order of the database's collation.
  unfoldable pub list_sensor_profiles : Exec Session (List SensorProfile)
  list_sensor_profiles =
      read
        (λ db. order_by (λ a b. name_le a.name b.name) (select (λ s. s.enabled) db.sensor_profiles))

unfoldable pub get_sensor_profile : Uuid → Exec Session SensorProfile
unfolding or_404
get_sensor_profile profile_id = do
  found ← read (λ db. find? (λ (s : SensorProfile). s.id == profile_id) db.sensor_profiles)
  or_404 found
