-- ===== src/Store/States.antt =====
-- `RunState` of domain.py and `ALLOWED_TRANSITIONS` of store.py.
use changesafe.Prelude.{Bool, true, false, String}

pub data RunState : Type 0 where
  created loading_context context_fallback_required scoring_risk generating validating : RunState
  validating_warehouse awaiting_approval preparing_preview publishing completed failed : RunState
  publication_failed : RunState

-- `state in ALLOWED_TRANSITIONS[current]`
unfoldable pub allowed : RunState → RunState → Bool
allowed created loading_context = true
allowed loading_context scoring_risk = true
allowed loading_context context_fallback_required = true
allowed loading_context failed = true
allowed context_fallback_required loading_context = true
allowed scoring_risk generating = true
allowed scoring_risk failed = true
allowed generating validating = true
allowed generating failed = true
allowed validating validating_warehouse = true
allowed validating awaiting_approval = true
allowed validating failed = true
allowed validating_warehouse awaiting_approval = true
allowed validating_warehouse failed = true
allowed awaiting_approval preparing_preview = true
allowed awaiting_approval publishing = true
allowed awaiting_approval failed = true
allowed preparing_preview completed = true
allowed preparing_preview publication_failed = true
allowed publishing completed = true
allowed publishing publication_failed = true
allowed publication_failed preparing_preview = true
allowed publication_failed publishing = true
allowed _ _ = false

-- `state.value.replace("_", " ").title()`
unfoldable pub title : RunState → String
title created = "Created"
title loading_context = "Loading Context"
title context_fallback_required = "Context Fallback Required"
title scoring_risk = "Scoring Risk"
title generating = "Generating"
title validating = "Validating"
title validating_warehouse = "Validating Warehouse"
title awaiting_approval = "Awaiting Approval"
title preparing_preview = "Preparing Preview"
title publishing = "Publishing"
title completed = "Completed"
title failed = "Failed"
title publication_failed = "Publication Failed"

abbrev pub is_completed : RunState → Bool
is_completed completed = true
is_completed _ = false
