-- ===== src/Cli/Tests.antt =====
-- A network error of the exec command, and the theorems on it.
use letts.Cli.ExitCodes.{as_outcome, map_error_to_exit, Err}
use letts.Storage.Rows.{Outcome}
use letts.Prelude.{pos, refl, ◌≡◌, false, true, none, some}
use letts.Cli.ExitCodes.Classes.{map_error_to_exit-zero}

abbrev network_down : Err
network_down =
    Err.network (Err.foreign (record { http_status = none; url_error = true; net_error = true }))

-- outside the exec command it is the network class
plain_code : map_error_to_exit "network: dial" (some network_down) ≡ pos 4
unfolding map_error_to_exit
plain_code = refl

usage_code :
    map_error_to_exit "unknown command \"x\""
      (some (Err.foreign (record { http_status = none; url_error = false; net_error = false })))
    ≡ pos 2
unfolding map_error_to_exit
usage_code = refl

map_error_to_exit-zero_example :
    as_outcome (Err.exec_outcome Outcome.success (pos 0)) ≡ some (Outcome.success, pos 0)
unfolding map_error_to_exit
map_error_to_exit-zero_example =
    map_error_to_exit-zero "exec outcome" (Err.exec_outcome Outcome.success (pos 0)) refl
