-- ===== src/Wol/Tests.antt =====
-- Wake-on-LAN at concrete interfaces.
use truenas_asustor_chassisd.Base.{◌≡◌, refl, none, [], ◌∷◌, codes}
use truenas_asustor_chassisd.Wol.{
  parsed, unsupported, parse_mode, Outcome, failed, read_failed, WolKeeper, log, Answer, answered,
  WolInfo, enforce_one,
}
use truenas_asustor_chassisd.Wol.Enforcing.{Enforced, enforce_one-Enforced}
use truenas_asustor_chassisd.Wol.Logging.{Repeated, log-Repeated}

unordered : parse_mode (codes "gp") ≡ parsed 33
unfolding parse_mode
unordered = refl

secure : parse_mode (codes "gs") ≡ unsupported b's'
unfolding parse_mode
secure = refl

abbrev keeper : WolKeeper
keeper = record { nics = "eth0" ∷ []; want = 32; last_check = none; applied_to = []; problems = [] }

abbrev no_device : Outcome
no_device = failed (read_failed "No such device")

log-Repeated_example :
    Repeated "eth0" no_device (log (log keeper "eth0" no_device).0 "eth0" no_device).1
log-Repeated_example = log-Repeated keeper "eth0" no_device

abbrev magic : Answer WolInfo
magic = answered (record { supported = 47; enabled = 32 })

abbrev disarmed : Answer WolInfo
disarmed = answered (record { supported = 47; enabled = 0 })

enforce_one-Enforced_example :
    Enforced 32 disarmed (answered tt) magic (enforce_one 32 disarmed (answered tt) magic)
enforce_one-Enforced_example = enforce_one-Enforced 32 disarmed (answered tt) magic
