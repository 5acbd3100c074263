-- ===== src/ErrorHandler.antt =====
-- ErrorHandler/errorHandler.h and ErrorHandler/errorHandler.cpp: error codes, their categories and
-- the reaction to each. A code is the integer of its enumerator.
pub mod Categories
pub mod Texts
use data_dump_protocol.Base.{Bool, true, false, ◌&&◌, Option, none, some, if◌then◌else◌}
use data_dump_protocol.Base.Int.{ℤ, pos, negsuc, leb_ℤ, ltb_ℤ}

-- The enumerators of `emu_err_t` that bound the categories.
abbrev pub emu_success : ℤ
emu_success = pos 0

abbrev pub emu_error_major : ℤ
emu_error_major = negsuc 29

abbrev pub emu_error_minor : ℤ
emu_error_minor = negsuc 59

abbrev pub emu_warn_major : ℤ
emu_warn_major = negsuc 89

abbrev pub emu_warn_minor : ℤ
emu_warn_minor = negsuc 119

-- `error_category_t`
pub data ErrorCategory : Type 0 where
  std_exception error_major error_minor warn_major warn_minor not_an_error : ErrorCategory

-- The number of `WARN_MAJOR` in that enumeration.
abbrev pub warn_major_number : ℤ
warn_major_number = pos 3

-- The third test names `WARN_MAJOR`, the category, where the first two name codes.
unfoldable pub get_error_category : ℤ → ErrorCategory
get_error_category error =
    if leb_ℤ emu_error_major error && ltb_ℤ error emu_success
    then ErrorCategory.error_major
    else if leb_ℤ emu_error_minor error && ltb_ℤ error emu_error_major
    then ErrorCategory.error_minor
    else if leb_ℤ warn_major_number error && ltb_ℤ error emu_error_minor
    then ErrorCategory.warn_major
    else ErrorCategory.warn_minor

-- `error_reporting_action_e`
pub data ReportingAction : Type 0 where
  turn_led_off turn_led_on toggle_led_1hz toggle_led_2hz toggle_led_4hz : ReportingAction
  turn_led_red turn_led_green turn_led_blue terminate spin_forever software_reset : ReportingAction
  send_error_msg_mqtt send_error_msg_tcp send_error_msg_ws send_error_msg_ble : ReportingAction
  send_error_msg_uart0 send_error_msg_uart1 send_error_msg_uart2 : ReportingAction
  send_error_msg_i2c0 send_error_msg_i2c1 send_error_msg_hsspi send_error_msg_lsspi :
      ReportingAction
  send_error_msg_sd_card_logger just_show_debug_log : ReportingAction

-- `error_policy_t`
pub record ErrorPolicy : Type 0 where
  pub on_std_exception : ReportingAction
  pub on_error_major : ReportingAction
  pub on_error_minor : ReportingAction
  pub on_warn_major : ReportingAction
  pub on_warn_minor : ReportingAction

-- `defaultErrorPolicy`
abbrev pub default_error_policy : ErrorPolicy
default_error_policy = record {
  on_std_exception = ReportingAction.toggle_led_4hz;
  on_error_major = ReportingAction.toggle_led_4hz;
  on_error_minor = ReportingAction.toggle_led_2hz;
  on_warn_major = ReportingAction.toggle_led_1hz;
  on_warn_minor = ReportingAction.just_show_debug_log;
}

-- What `processError` of a code does: it calls the callback, or performs an action, or neither.
pub data Reaction : Type 0 where
  calls_back : Reaction
  performs : ReportingAction → Reaction
  nothing : Reaction

-- The switch of `processError`: a minor warning takes the action of a minor error.
abbrev pub reaction_to : ErrorCategory → ErrorPolicy → Reaction
reaction_to ErrorCategory.error_major policy = performs policy.on_error_major
reaction_to ErrorCategory.error_minor policy = performs policy.on_error_minor
reaction_to ErrorCategory.warn_major policy = performs policy.on_warn_major
reaction_to ErrorCategory.warn_minor policy = performs policy.on_error_minor
reaction_to ErrorCategory.std_exception policy = nothing
reaction_to ErrorCategory.not_an_error policy = nothing

unfoldable pub process_error : ℤ → ErrorPolicy → Bool → Reaction
unfolding get_error_category
process_error error policy callback =
    if callback then calls_back else reaction_to (get_error_category error) policy

-- `processError` of an exception.
unfoldable pub process_exception : ErrorPolicy → Bool → Reaction
process_exception policy callback =
    if callback then calls_back else performs policy.on_std_exception
