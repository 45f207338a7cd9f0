-- ===== src/Config/Tests.antt =====
-- The configurations of small environments.
use sticky_proxy.Prelude.{◌≡◌, refl, [], str_dec, is_empty}
use sticky_proxy.Maps
use sticky_proxy.Config.{
  ok, err, missing, ◌>>=◌, ◌>>◌, refuse_if, env_or_default, parse_int, parse_time, parsed,
}
use sticky_proxy.Config.Paths.{keep_paths, split_commas, trim_left, trim_right, is_space}
use sticky_proxy.Config.Load.{
  load, load_redis, load_backends, load_modes, load_discovery, choose_store, check_fields,
  load_limits, load_rest, with_colon,
}
use sticky_proxy.Config.Fixtures.{with_vars, small, loaded}
use sticky_proxy.Config.Consistent.{IsConsistent, load-IsConsistent}

small_loads : load small ≡ ok loaded
unfolding load load_redis load_backends load_modes load_discovery choose_store check_fields
    load_limits load_rest with_colon keep_paths split_commas trim_left trim_right is_space ◌>>=◌
    ◌>>◌ refuse_if env_or_default parse_int parse_time parsed is_empty Maps.get str_dec
small_loads = refl

no_secret : load (with_vars []) ≡ err (missing "JWT_SECRET")
unfolding load load_redis ◌>>=◌ ◌>>◌ refuse_if is_empty Maps.get
no_secret = refl

load-IsConsistent_example : IsConsistent loaded
load-IsConsistent_example = load-IsConsistent small loaded small_loads
