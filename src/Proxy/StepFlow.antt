-- ===== src/Proxy/StepFlow.antt =====
-- The view of the diagnostics window by its state (vci_proxy/diagnostics_step_flow.py).
use gds2_automation.Base.{
  String, ◌≡◌, refl, Bool, true, false, not, ◌&&◌, ◌||◌, ◌==◌, string_eq, if◌then◌else◌, arith,
}

pub data DiagnosticsBranch : Type 0 where
  no_branch module_branch vehicle_branch : DiagnosticsBranch

pub data OutputMode : Type 0 where
  dtc ai : OutputMode

pub record DiagnosticsStepFlowState : Type 0 where
  pub session_active : Bool
  pub branch : DiagnosticsBranch
  pub current_page : String
  pub selected_module : String
  pub selected_data_category : String
  pub vehicle_dtc_ready : Bool
  pub vehicle_dtc_status_message : String
  pub category_confirmed : Bool
  pub stream_active : Bool
  pub ai_sse_running : Bool
  pub ai_start_pending : Bool
  pub auto_ai_start_scheduled : Bool
  pub session_live_data_active : Bool
  pub session_ai_active : Bool
  pub session_navigation_active : Bool
  pub output_mode : OutputMode

pub record DiagnosticsStepFlowView : Type 0 where
  pub busy : Bool
  pub branch_choice_enabled : Bool
  pub show_module_selection : Bool
  pub show_data_selection : Bool
  pub show_module_actions : Bool
  pub show_vehicle_actions : Bool
  pub can_select_module : Bool
  pub can_select_data_category : Bool
  pub can_run_ai : Bool
  pub can_read_dtcs : Bool
  pub can_clear_dtcs : Bool
  pub step_title : String
  pub step_hint : String
  pub output_mode : OutputMode

unfoldable pub is_module : DiagnosticsBranch → Bool
is_module module_branch = true
is_module _ = false

unfoldable pub is_vehicle : DiagnosticsBranch → Bool
is_vehicle vehicle_branch = true
is_vehicle _ = false

unfoldable pub is_busy : DiagnosticsStepFlowState → Bool
is_busy s =
    s.stream_active
    || (s.ai_sse_running
        || (s.ai_start_pending
            || (s.auto_ai_start_scheduled
                || (s.session_live_data_active
                    || (s.session_ai_active || s.session_navigation_active)))))

-- `strip`, `lower` and `casefold` are Python's methods of a text.
module _ (strip lower casefold : String → String) where
  unfoldable pub is_vehicle_dtc_information_category : String → Bool
  is_vehicle_dtc_information_category value =
      let folded = casefold (strip value) in
      folded == "vehicle dtc information"
      || (folded == "vehicle dtcs" || folded == "vehicle_dtc.information")

  unfoldable pub has_text : String → Bool
  has_text value = not (strip value == "")

  unfoldable pub on_data_display : DiagnosticsStepFlowState → Bool
  on_data_display s = lower (strip s.current_page) == "data_display"

  unfoldable pub module_ready : DiagnosticsStepFlowState → Bool
  module_ready s =
      s.session_active
      && (is_module s.branch
          && (has_text s.selected_module
              && (has_text s.selected_data_category
                  && (s.category_confirmed && (on_data_display s && not (is_busy s))))))

  unfoldable pub vehicle_ready : DiagnosticsStepFlowState → Bool
  vehicle_ready s =
      s.session_active
      && (is_vehicle s.branch
          && (on_data_display s
              && (has_text s.selected_data_category
                  && ((not (is_vehicle_dtc_information_category s.selected_data_category)
                        || s.vehicle_dtc_ready)
                      && not (is_busy s)))))

  -- The title and the hint.
  unfoldable pub module_step : DiagnosticsStepFlowState → String × String
  module_step s =
      if not (has_text s.selected_module)
      then ("Step 2: Select Module", "Choose a module and submit it.")
      else if not (has_text s.selected_data_category)
          || (not s.category_confirmed || not (on_data_display s))
      then ("Step 3: Select Data", "Choose a data item and submit it.")
      else ("Step 4: Run Module Actions", "Run AI Diagnostics, Read DTCs, or Clear DTCs.")

  unfoldable pub waiting_hint : String → String
  waiting_hint message =
      if strip message == ""
      then "Waiting for Vehicle DTC table to finish loading..."
      else strip message

  unfoldable pub vehicle_hint : DiagnosticsStepFlowState → String
  vehicle_hint s =
      if not (on_data_display s)
      then "Navigating to Vehicle DTC Information..."
      else if is_vehicle_dtc_information_category s.selected_data_category
          && not s.vehicle_dtc_ready
      then waiting_hint s.vehicle_dtc_status_message
      else "Vehicle DTC Information is ready. Choose Read DTCs or Clear DTCs."

  unfoldable pub branch_step : DiagnosticsStepFlowState → DiagnosticsBranch → String × String
  branch_step s no_branch = (
    "Step 1: Choose Diagnostics Mode",
    "Choose Module Diagnostics or Vehicle Diagnostics to continue.",
  )
  branch_step s module_branch = module_step s
  branch_step s vehicle_branch = ("Step 2: Vehicle DTC Information", vehicle_hint s)

  unfoldable pub step_of : DiagnosticsStepFlowState → String × String
  step_of s =
      if not s.session_active
      then (
        "Step 1: Start Session",
        "Start Session first, then choose Module Diagnostics or Vehicle Diagnostics.",
      )
      else branch_step s s.branch

  unfoldable pub build_step_flow_view : DiagnosticsStepFlowState → DiagnosticsStepFlowView
  build_step_flow_view s = record {
    busy = is_busy s;
    branch_choice_enabled = s.session_active && not (is_busy s);
    show_module_selection = is_module s.branch;
    show_data_selection = is_module s.branch;
    show_module_actions = is_module s.branch;
    show_vehicle_actions = is_vehicle s.branch;
    can_select_module =
        s.session_active && (is_module s.branch && (has_text s.selected_module && not (is_busy s)));
    can_select_data_category =
        s.session_active
        && (is_module s.branch
            && (has_text s.selected_module
                && (has_text s.selected_data_category && not (is_busy s))));
    can_run_ai = module_ready s;
    can_read_dtcs = module_ready s || vehicle_ready s;
    can_clear_dtcs = module_ready s || vehicle_ready s;
    step_title = (step_of s).0;
    step_hint = (step_of s).1;
    output_mode = s.output_mode;
  }

  -- Some action of the view is enabled.
  abbrev pub offers : DiagnosticsStepFlowView → Bool
  offers v =
      v.branch_choice_enabled
      || (v.can_select_module
          || (v.can_select_data_category
              || (v.can_run_ai || (v.can_read_dtcs || v.can_clear_dtcs))))

  -- The view offers an action exactly in an active session that is not busy.
  pub offered_when_idle :
      (s : DiagnosticsStepFlowState)
      → offers (build_step_flow_view s) ≡ (s.session_active && not (is_busy s))
  unfolding build_step_flow_view module_ready vehicle_ready
  offered_when_idle s = ground arith

  actions_title : String
  actions_title = "Step 4: Run Module Actions"

  ready_by_module :
      (m c k d y : Bool)
      → (m && (c && (k && (d && not y)))) ≡ (
          (if not m
              then (let step : String × String =
                    ("Step 2: Select Module", "Choose a module and submit it.") in
                  step)
              else if not c || (not k || not d)
              then ("Step 3: Select Data", "Choose a data item and submit it.")
              else (
                "Step 4: Run Module Actions", "Run AI Diagnostics, Read DTCs, or Clear DTCs.",
              )).0
            == actions_title
          && not y)
  unfolding actions_title
  ready_by_module false c k d y = refl
  ready_by_module true false k d y = refl
  ready_by_module true true false d y = refl
  ready_by_module true true true false y = refl
  ready_by_module true true true true y = refl

  ready_by_branch :
      (s : DiagnosticsStepFlowState) (b : DiagnosticsBranch) (y : Bool)
      → (is_module b
          && (has_text s.selected_module
              && (has_text s.selected_data_category
                  && (s.category_confirmed && (on_data_display s && not y)))))
        ≡ ((branch_step s b).0 == actions_title && not y)
  unfolding is_module branch_step module_step
  ready_by_branch s no_branch y = unfold actions_title in refl
  ready_by_branch s vehicle_branch y = unfold actions_title in refl
  ready_by_branch s module_branch y =
      ready_by_module (has_text s.selected_module) (has_text s.selected_data_category)
        s.category_confirmed (on_data_display s) y

  -- The AI diagnosis can be run exactly where the title names the step of the module's actions and
  -- nothing is running.
  pub title_of_actions :
      (s : DiagnosticsStepFlowState)
      → (build_step_flow_view s).can_run_ai
        ≡ ((build_step_flow_view s).step_title == "Step 4: Run Module Actions" && not (is_busy s))
  unfolding build_step_flow_view module_ready step_of
  title_of_actions s = go s.session_active
    where
      go :
          (a : Bool)
          → (a
              && (is_module s.branch
                  && (has_text s.selected_module
                      && (has_text s.selected_data_category
                          && (s.category_confirmed && (on_data_display s && not (is_busy s)))))))
            ≡ ((if not a
                    then (
                      "Step 1: Start Session",
                      "Start Session first, then choose Module Diagnostics or Vehicle Diagnostics.",
                    )
                    else branch_step s s.branch).0
                  == "Step 4: Run Module Actions"
                && not (is_busy s))
      go false = refl
      go true = unfold actions_title in ready_by_branch s s.branch (is_busy s)
