-- ===== src/Proxy/Gauge.antt =====
-- The gauge `ConnectionsActive`: how often a trace raises it, and how often it lowers it.
use packetpony.Base.{ℕ, ◌+◌, ◌≡◌, List, [], ◌∷◌, ◌++◌, arith, Bool}
use packetpony.Base.Text.{Text}
use packetpony.Proxy.{Effect, connections_active_inc, connections_active_dec, bandwidth_logs}

abbrev pub incs : List Effect → ℕ
incs [] = 0
incs (connections_active_inc ∷ es) = incs es + 1
incs (_ ∷ es) = incs es

abbrev pub decs : List Effect → ℕ
decs [] = 0
decs (connections_active_dec ∷ es) = decs es + 1
decs (_ ∷ es) = decs es

pub incs-append : (es fs : List Effect) → incs (es ++ fs) ≡ incs es + incs fs
incs-append [] fs = omega arith
incs-append (e ∷ es) fs = ground (arith, incs-append es fs)

pub decs-append : (es fs : List Effect) → decs (es ++ fs) ≡ decs es + decs fs
decs-append [] fs = omega arith
decs-append (e ∷ es) fs = ground (arith, decs-append es fs)

-- Effects that do not touch the gauge.
abbrev pub IsQuiet : List Effect → Type 0
IsQuiet es = (incs es ≡ 0) × (decs es ≡ 0)

pub bandwidth_logs-IsQuiet :
    (over : Bool) (action : Text) (allowed : Bool) → IsQuiet (bandwidth_logs over action allowed)
bandwidth_logs-IsQuiet over action allowed = ground arith
