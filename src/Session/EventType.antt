-- ===== src/Session/EventType.antt =====
-- The values of `EventType` of backend/engines/scanning/sandbox_session.py.
use graduationp.Prelude.{String}

abbrev pub process_start : String
process_start = "process_start"

abbrev process_end : String
process_end = "process_end"

abbrev pub file_create : String
file_create = "file_create"

abbrev pub file_modify : String
file_modify = "file_modify"

abbrev pub file_delete : String
file_delete = "file_delete"

abbrev pub registry_modify : String
registry_modify = "registry_modify"

abbrev pub registry_create : String
registry_create = "registry_create"

abbrev pub network_connect : String
network_connect = "network_connect"

abbrev pub network_blocked : String
network_blocked = "network_blocked"

abbrev pub persistence_attempt : String
persistence_attempt = "persistence_attempt"

abbrev pub suspicious_behavior : String
suspicious_behavior = "suspicious_behavior"

abbrev pub status_update : String
status_update = "status_update"
