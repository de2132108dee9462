-- ===== src/Notifications/Witnesses.antt =====
-- The theorem on notifications at small settings, and a test.
use react_go_workflow.Prelude.{◌≡◌, ◌↔◌, refl, true, some, [], ◌∷◌, In, List, codes}
use react_go_workflow.Value.{string, end, field}
use react_go_workflow.Engine.Types.{Uuid}
use react_go_workflow.Workflows.Tables.{SettingRow, Channel, in_app, email, NotifyOn, failure, all}
use react_go_workflow.Notifications.{Ended, dispatch, dispatch_in_app}
use react_go_workflow.Notifications.Laws.{Requested, dispatch-Requested}

abbrev setting : Uuid → Channel → NotifyOn → SettingRow
setting id channel notify_on = record {
  id = id;
  workflow_id = 1;
  enabled = true;
  channel = channel;
  config = some (field (codes "url") (string (codes "u")) end);
  notify_on = notify_on;
}

abbrev ended : Ended
ended = record {
  workflow_id = 1;
  workflow_name = codes "w";
  execution_id = 2;
  status = codes "failed";
  err_msg = codes "e";
}

abbrev settings : List SettingRow
settings = setting 11 in_app failure ∷ setting 12 email all ∷ []

dispatch-Requested_example :
    In (dispatch_in_app ended) (dispatch (some settings) ended)
    ↔ Requested settings ended (dispatch_in_app ended)
dispatch-Requested_example = dispatch-Requested settings ended (dispatch_in_app ended)

-- A setting with the channel `email` delivers nothing.
email_is_silent : dispatch (some (setting 12 email all ∷ [])) ended ≡ []
unfolding dispatch
email_is_silent = refl
