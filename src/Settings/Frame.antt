-- ===== src/Settings/Frame.antt =====
-- Loading the settings changes nothing.
use lillian_backend.Common.{arith}
use lillian_backend.Schema.{Db}
use lillian_backend.Sql.Rules.{Keeps, IsPreorder}
use lillian_backend.Settings.{load_runtime_settings}

pub load_runtime_settings-Keeps :
    {R : Db → Db → Type 0} → IsPreorder R → {E : Type 0} → Keeps R (load_runtime_settings {E = E})
unfolding load_runtime_settings
load_runtime_settings-Keeps o = record { at = λ w. ground (arith, o.same w.db) }
