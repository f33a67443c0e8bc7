-- ===== src/Tests/Config.antt =====
-- Lines of a configuration file.
use orb_weaver.Configuration.Fields.{max_connections, port, fetch_configuration-get}
use orb_weaver.Configuration.File.{
  render, Keeps, parse_configuration-put_all, parse_configuration-IsPositive,
}
use orb_weaver.Configuration.Line.{assignment, parse_line_long}
use orb_weaver.Configuration.{
  config_port, config, load_at, store_at, find_name, validate_field_name, find_type, find_enum_row,
  name_loop, value_loop, number_loop, parse_value, parse_line, parse_lines, parse_configuration,
  initialize_configuration, fetch_configuration_by_name, fetch_configuration_by_enum,
}
use orb_weaver.ErrorHandler.{validate_syscall}
use orb_weaver.Memory.{Bytes, codes, c_string, read, strcmp_equal}
use orb_weaver.Prelude.{
  ◌≡◌, refl, true, false, some, List, [], ◌∷◌, map, arith, ok, fault, out_of_bounds, Ensures,
  replicate, pos,
}

program : Unit {0}
unfolding read strcmp_equal validate_syscall load_at store_at find_name validate_field_name
    find_type find_enum_row name_loop value_loop number_loop parse_value parse_line parse_lines
    parse_configuration initialize_configuration fetch_configuration_by_name
    fetch_configuration_by_enum
program = tt

abbrev file : List Bytes
file = codes "port = 8080\n" ∷ codes "\n" ∷ codes "num_cores = 2\n" ∷ []

-- The number of cores of the file gives way to that of the machine.
boot :
    initialize_configuration true (some file) (pos 0) (pos 12) config
    ≡ ok (true, record config { port = 8080; num_cores = 12 })
unfolding program
boot = refl

unknown_field :
    parse_configuration true (some (codes "ports = 1\n" ∷ [])) config ≡ ok (false, config)
unfolding program
unknown_field = refl

no_folder : parse_configuration false (some file) config ≡ ok (false, config)
unfolding program
no_folder = refl

parse_line_long_example :
    parse_line (assignment port (replicate 20 b'1') (0 ∷ [])) config ≡ fault out_of_bounds
parse_line_long_example =
    parse_line_long port (replicate 20 b'1') (0 ∷ []) config (ground arith) (omega arith)

parse_configuration-put_all_example :
    parse_configuration true
      (some (map render ((port, 8080) ∷ (max_connections, 64) ∷ (port, 9090) ∷ [])))
      config
    ≡ ok (true, record config { port = 9090; max_connections = 64 })
parse_configuration-put_all_example =
    parse_configuration-put_all ((port, 8080) ∷ (max_connections, 64) ∷ (port, 9090) ∷ []) config
      (ground arith)

parse_configuration-IsPositive_example :
    Ensures Keeps
      (parse_configuration true (some (codes "port = 8080\n" ∷ codes "port = 0\n" ∷ [])) config)
parse_configuration-IsPositive_example =
    parse_configuration-IsPositive true (some (codes "port = 8080\n" ∷ codes "port = 0\n" ∷ []))
      config
      (record {
        max_connections = omega arith;
        port = omega arith;
        num_cores = omega arith;
        max_num_routes = omega arith;
      })

fetch_configuration-get_example :
    (fetch_configuration_by_name (c_string "port") 0 config ≡ ok (true, 8888))
    × (fetch_configuration_by_enum config_port 0 config ≡ ok (true, 8888))
fetch_configuration-get_example = fetch_configuration-get port 0 config
