-- ===== src/Configuration/Fields.antt =====
-- The four fields, as the rows of `cfg_entries` know them.
use Prim.Native.String.{String}
use orb_weaver.Configuration.{
  ConfigValues, config_max_connections, config_port, config_num_cores, config_max_num_routes,
  Configuration, CfgEntry, store_at, validate_field_name, name_loop, max_field_length, cache,
  fetch_configuration_by_name, fetch_configuration_by_enum,
}
use orb_weaver.Memory.{Bytes, c_string, codes}
use orb_weaver.Prelude.{ℕ, ◌≡◌, refl, true, some, [], ◌∷◌, ◌++◌, ok}

pub data Field : Type 0 where
  max_connections port num_cores max_num_routes : Field

abbrev pub name : Field → String
name max_connections = "max_connections"
name port = "port"
name num_cores = "num_cores"
name max_num_routes = "max_num_routes"

abbrev pub type : Field → ConfigValues
type max_connections = config_max_connections
type port = config_port
type num_cores = config_num_cores
type max_num_routes = config_max_num_routes

abbrev pub get : Field → Configuration → ℕ
get max_connections c = c.max_connections
get port c = c.port
get num_cores c = c.num_cores
get max_num_routes c = c.max_num_routes

abbrev pub put : Field → ℕ → Configuration → Configuration
put max_connections v c = record c { max_connections = v }
put port v c = record c { port = v }
put num_cores v c = record c { num_cores = v }
put max_num_routes v c = record c { max_num_routes = v }

abbrev pub offset : Field → ℕ
offset max_connections = 0
offset port = 8
offset num_cores = 16
offset max_num_routes = 24

abbrev pub row : Field → CfgEntry
row f = record { name = some (c_string (name f)); offset = offset f; type = type f }

pub validate_field_name-name :
    (f : Field) → validate_field_name (cache max_field_length (codes (name f))) ≡ ok (some (row f))
unfolding validate_field_name
validate_field_name-name max_connections = refl
validate_field_name-name _ = refl

pub name_loop-name :
    (f : Field) (rest : Bytes)
    → name_loop max_field_length (codes (name f) ++ b' ' ∷ rest) []
      ≡ ok (some (codes (name f), b' ' ∷ rest))
unfolding name_loop
name_loop-name max_connections rest = refl
name_loop-name _ rest = refl

pub store_at-put :
    (f : Field) (v : ℕ) (c : Configuration) → store_at (offset f) v c ≡ ok (put f v c)
unfolding store_at
store_at-put max_connections v c = refl
store_at-put _ v c = refl

-- Both ways to fetch a field give its value, by its name and by its row of the enumeration.
pub fetch_configuration-get :
    (f : Field) (value : ℕ) (c : Configuration)
    → (fetch_configuration_by_name (c_string (name f)) value c ≡ ok (true, get f c))
      × (fetch_configuration_by_enum (type f) value c ≡ ok (true, get f c))
unfolding fetch_configuration_by_name fetch_configuration_by_enum
fetch_configuration-get max_connections value c = (refl, refl)
fetch_configuration-get _ value c = (refl, refl)
