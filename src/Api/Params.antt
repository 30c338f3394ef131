-- ===== src/Api/Params.antt =====
-- internal/api/api.go: the query parameters, after strconv (an argument: its answer, if it has one).
use uptime_monitor_api.Base.{ℕ, ◌≤◌, arith, Option, none, some, String, ltb, ◌==◌, if◌then◌else◌}
use uptime_monitor_api.Base.Int.{ℤ, pos, negsuc, sub_ℕ}
use uptime_monitor_api.Base.Text.{str_eq, is_empty}

-- `sinceParam`
unfoldable pub since_param : Option ℤ → ℕ
since_param none = 0
since_param (some (pos n)) = n
since_param (some (negsuc n)) = 0

-- `limitParam`
unfoldable pub limit_param : Option ℤ → ℕ → ℕ
limit_param none def = def
limit_param (some (pos n)) def = if n == 0 then def else if ltb 10000 n then 10000 else n
limit_param (some (negsuc n)) def = def

-- `windowSeconds`
unfoldable pub window_seconds : String → Option ℕ
window_seconds w =
    if str_eq w "1h"
    then some 3600
    else if str_eq w "24h"
    then some 86400
    else if str_eq w "7d"
    then some 604800
    else if str_eq w "30d"
    then some 2592000
    else if str_eq w "all"
    then some 0
    else none

abbrev pub cutoff : ℕ → String → Option ℕ → String × ℤ
cutoff now w none = ("all", pos 0)
cutoff now w (some secs) = if secs == 0 then (w, pos 0) else (w, sub_ℕ now secs)

-- `parseWindow`: the window's name and the first second that it takes in.
unfoldable pub parse_window : ℕ → String → String × ℤ
unfolding window_seconds
parse_window now w =
    let name = if is_empty w then "all" else w in cutoff now name (window_seconds name)

-- With a default of at least 1 and at most 10000, a limit lies between 1 and 10000, whatever the
-- request says.
pub limit_param-bounds :
    (o : Option ℤ) (def : ℕ)
    → 1 ≤ def
    → def ≤ 10000
    → (1 ≤ limit_param o def) × (limit_param o def ≤ 10000)
unfolding limit_param
limit_param-bounds none def p q = (p, q)
limit_param-bounds (some (pos n)) def p q = ground arith
limit_param-bounds (some (negsuc n)) def p q = (p, q)
