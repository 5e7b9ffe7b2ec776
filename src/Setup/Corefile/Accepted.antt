-- ===== src/Setup/Corefile/Accepted.antt =====
-- parseElchi (setup.go) on the lines of a block.
use elchi_gslb.Prelude.{◌≤◌, ◌<◌, ◌≢◌, [], nat_eq, list_eq}
use elchi_gslb.Text.{Text, byte_length}
use elchi_gslb.Plugin.{Config}
use elchi_gslb.Setup.{min_secret_length}
use elchi_gslb.Setup.Corefile.{endpoint, secret, sync_interval, timeout, node_ip}

-- A configuration as the checks after the loops want it.
pub record IsComplete (config : Config) : Type 0 where
  pub zone : config.zone ≢ []
  pub endpoint_given : config.endpoint ≢ []
  pub secret_given : config.secret ≢ []
  pub node_ip_given : config.node_ip ≢ []
  pub secret_long : min_secret_length ≤ byte_length config.secret
  pub intervals : config.timeout < config.sync_interval
