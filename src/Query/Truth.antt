-- ===== src/Query/Truth.antt =====
-- SQL's truth values: `none` is UNKNOWN.
use httk_data.Prelude.{Bool, true, false, Option, none, some}

abbrev pub Truth : Type 0
Truth = Option Bool

abbrev pub truth_and : Truth → Truth → Truth
truth_and (some false) b = some false
truth_and (some true) b = b
truth_and none (some false) = some false
truth_and none (some true) = none
truth_and none none = none

abbrev pub truth_or : Truth → Truth → Truth
truth_or (some true) b = some true
truth_or (some false) b = b
truth_or none (some true) = some true
truth_or none (some false) = none
truth_or none none = none

abbrev pub truth_not : Truth → Truth
truth_not (some true) = some false
truth_not (some false) = some true
truth_not none = none
