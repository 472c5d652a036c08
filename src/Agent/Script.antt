-- ===== src/Agent/Script.antt =====
-- `outcome_script` of agent/config.py: its validator, and the list that the engine follows.
pub mod RoundTrip
use hilforge.Base.{
  ℕ, Bool, true, false, not, Option, none, some, List, [], ◌∷◌, map, where_true, any, all,
  if◌then◌else◌, ◌||◌, is_none,
}
use hilforge.Text.{Codes, codes, codes_eq, strip, lower, split_on, join}
use hilforge.Agent.Engine.{ScriptedOutcome, pass, fail, transient, disconnect}

abbrev pub comma : ℕ
comma = b','

abbrev pub outcome_name : ScriptedOutcome → Codes
outcome_name pass = codes "pass"
outcome_name fail = codes "fail"
outcome_name transient = codes "transient"
outcome_name disconnect = codes "disconnect"

-- `item in supported`.
unfoldable pub is_supported : Codes → Bool
is_supported item =
    codes_eq item (outcome_name pass)
    || codes_eq item (outcome_name fail)
    || codes_eq item (outcome_name transient)
    || codes_eq item (outcome_name disconnect)

abbrev is_blank : Codes → Bool
is_blank [] = true
is_blank (c ∷ s) = false

-- `[item.strip().lower() for item in value.split(",") if item.strip()]`.
unfoldable pub script_items : Codes → List Codes
script_items value =
    map (λ item. lower (strip item))
      (where_true (λ item. not (is_blank (strip item))) (split_on comma value))

-- `none` is the `ValueError`.
check_items : List Codes → Option Codes
check_items [] = none
check_items (w ∷ ws) = if all is_supported (w ∷ ws) then some (join comma (w ∷ ws)) else none

unfoldable pub validate_outcome_script : Codes → Option Codes
unfolding check_items
validate_outcome_script value = check_items (script_items value)

unfoldable pub scripted_outcomes : Codes → List Codes
scripted_outcomes outcome_script = split_on comma outcome_script
