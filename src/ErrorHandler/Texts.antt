-- ===== src/ErrorHandler/Texts.antt =====
-- The enumerators of `emu_err_t` (ErrorHandler/errorHandler.h) and their texts (`printError` of
-- ErrorHandler/errorHandler.cpp).
use Prim.Native.String.{String}
use data_dump_protocol.Base.Int.{ℤ, pos, negsuc}

pub data EmuErr : Type 0 where
  emu_success emu_error_major emu_err_out_of_memory emu_err_invalid_arg emu_err_null : EmuErr
  emu_err_illegal_access emu_err_init_failed emu_sensor_comm_interface_not_found : EmuErr
  emu_err_task_timer emu_error_minor emu_sensor_comm_interface_not_supported : EmuErr
  emu_warn_major emu_warn_minor emu_failure emu_no_matching emu_warn_no_callback : EmuErr
  emu_err_access_denied emu_err_evt_handler_registration : EmuErr
  emu_err_evt_handler_deregistration emu_err_evt_task_creation : EmuErr
  emu_err_evt_loop_creation emu_err_null_instance emu_err_test_failed : EmuErr
  emu_err_mqtt_client_pub emu_err_mqtt_client_sub emu_err_gps_setup emu_err_bmi160_init : EmuErr
  emu_err_generic emu_err_std_failure emu_err_nan emu_err_wifi_disconnection : EmuErr
  emu_err_wifi_connection emu_pass : EmuErr

-- An enumerator without a number of its own is one more than the one before it.
abbrev pub number : EmuErr → ℤ
number EmuErr.emu_success = pos 0
number EmuErr.emu_error_major = negsuc 29
number EmuErr.emu_err_out_of_memory = negsuc 28
number EmuErr.emu_err_invalid_arg = negsuc 27
number EmuErr.emu_err_null = negsuc 26
number EmuErr.emu_err_illegal_access = negsuc 25
number EmuErr.emu_err_init_failed = negsuc 24
number EmuErr.emu_sensor_comm_interface_not_found = negsuc 23
number EmuErr.emu_err_task_timer = negsuc 22
number EmuErr.emu_error_minor = negsuc 59
number EmuErr.emu_sensor_comm_interface_not_supported = negsuc 58
number EmuErr.emu_warn_major = negsuc 89
number EmuErr.emu_warn_minor = negsuc 119
number EmuErr.emu_failure = negsuc 0
number EmuErr.emu_no_matching = negsuc 1
number EmuErr.emu_warn_no_callback = negsuc 2
number EmuErr.emu_err_access_denied = negsuc 4
number EmuErr.emu_err_evt_handler_registration = negsuc 9
number EmuErr.emu_err_evt_handler_deregistration = negsuc 10
number EmuErr.emu_err_evt_task_creation = negsuc 11
number EmuErr.emu_err_evt_loop_creation = negsuc 12
number EmuErr.emu_err_null_instance = negsuc 15
number EmuErr.emu_err_test_failed = negsuc 16
number EmuErr.emu_err_mqtt_client_pub = negsuc 17
number EmuErr.emu_err_mqtt_client_sub = negsuc 18
number EmuErr.emu_err_gps_setup = negsuc 20
number EmuErr.emu_err_bmi160_init = negsuc 21
number EmuErr.emu_err_generic = negsuc 22
number EmuErr.emu_err_std_failure = negsuc 23
number EmuErr.emu_err_nan = negsuc 24
number EmuErr.emu_err_wifi_disconnection = negsuc 13
number EmuErr.emu_err_wifi_connection = negsuc 14
number EmuErr.emu_pass = negsuc 26

-- The text that `printError` builds. The string is local, so the pointer that is returned outlives
-- it. The switch compares numbers, so the enumerators that share a number with a label have its
-- text.
abbrev pub error_text : EmuErr → String
error_text EmuErr.emu_success = "#EMU_SUCCESS"
error_text EmuErr.emu_error_major = "UNKNOWN, FORGOT"
error_text EmuErr.emu_err_out_of_memory = "#EMU_ERR_OUT_OF_MEMORY"
error_text EmuErr.emu_err_invalid_arg = "#EMU_ERR_INVALID_ARG"
error_text EmuErr.emu_err_null = "#EMU_ERR_NULL"
error_text EmuErr.emu_err_illegal_access = "#EMU_ERR_ILLEGAL_ACCESS"
error_text EmuErr.emu_err_init_failed = "UNKNOWN, FORGOT"
error_text EmuErr.emu_sensor_comm_interface_not_found = "UNKNOWN, FORGOT"
error_text EmuErr.emu_err_task_timer = "#EMU_ERR_GENERIC"
error_text EmuErr.emu_error_minor = "UNKNOWN, FORGOT"
error_text EmuErr.emu_sensor_comm_interface_not_supported = "UNKNOWN, FORGOT"
error_text EmuErr.emu_warn_major = "UNKNOWN, FORGOT"
error_text EmuErr.emu_warn_minor = "UNKNOWN, FORGOT"
error_text EmuErr.emu_failure = "#EMU_FAILURE"
error_text EmuErr.emu_no_matching = "#EMU_NO_MATCHING"
error_text EmuErr.emu_warn_no_callback = "#EMU_WARN_NO_CALLBACK"
error_text EmuErr.emu_err_access_denied = "#EMU_ERR_ACCESS_DENIED"
error_text EmuErr.emu_err_evt_handler_registration = "#EMU_ERR_EVT_HANDLER_REGISTRATION"
error_text EmuErr.emu_err_evt_handler_deregistration = "#EMU_ERR_EVT_HANDLER_DEREGISTRATION"
error_text EmuErr.emu_err_evt_task_creation = "#EMU_ERR_EVT_TASK_CREATION"
error_text EmuErr.emu_err_evt_loop_creation = "UNKNOWN, FORGOT"
error_text EmuErr.emu_err_null_instance = "UNKNOWN, FORGOT"
error_text EmuErr.emu_err_test_failed = "UNKNOWN, FORGOT"
error_text EmuErr.emu_err_mqtt_client_pub = "UNKNOWN, FORGOT"
error_text EmuErr.emu_err_mqtt_client_sub = "UNKNOWN, FORGOT"
error_text EmuErr.emu_err_gps_setup = "UNKNOWN, FORGOT"
error_text EmuErr.emu_err_bmi160_init = "UNKNOWN, FORGOT"
error_text EmuErr.emu_err_generic = "#EMU_ERR_GENERIC"
error_text EmuErr.emu_err_std_failure = "UNKNOWN, FORGOT"
error_text EmuErr.emu_err_nan = "UNKNOWN, FORGOT"
error_text EmuErr.emu_err_wifi_disconnection = "UNKNOWN, FORGOT"
error_text EmuErr.emu_err_wifi_connection = "UNKNOWN, FORGOT"
error_text EmuErr.emu_pass = "#EMU_ERR_NULL"
