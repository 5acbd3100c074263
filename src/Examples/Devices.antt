-- ===== src/Examples/Devices.antt =====
-- The theorems on the timers, the check sum table and the error handler, at samples.
use data_dump_protocol.Base.{
  ◌+◌, ◌≡◌, refl, List, [], ◌∷◌, some, none, true, false, arith, get_elem?, leb,
}
use data_dump_protocol.Base.Int.{negsuc}
use data_dump_protocol.BTimer.{
  BTimer, TimerMode, Service, TimerEvent, make_btimer, start, is_expired, timeout_cb, timer_run,
}
use data_dump_protocol.BTimer.Expiry.{is_expired_never, one_shot_expires}
use data_dump_protocol.Crc16.{crc16tab}
use data_dump_protocol.Crc16.Table.{crc_of_byte, crc16tab_lem}
use data_dump_protocol.ErrorHandler.{
  ErrorCategory, ErrorPolicy, ReportingAction, get_error_category, process_error,
  default_error_policy,
}
use data_dump_protocol.ErrorHandler.Texts.{EmuErr, number, error_text}
use data_dump_protocol.ErrorHandler.Categories.{process_error_ignores_warnings}

-- Start, a long run of the service given to the constructor, and another start.
abbrev events : List TimerEvent
events =
    TimerEvent.starts 500 0 true true
    ∷ TimerEvent.serves Service.given 600 true true
    ∷ TimerEvent.starts 10 700 true true
    ∷ TimerEvent.serves Service.given 9000 true true
    ∷ []

is_expired_never_example :
    (is_expired (timer_run (make_btimer TimerMode.one_shot true) events) true).0 ≡ false
is_expired_never_example =
    is_expired_never TimerMode.one_shot true events true (tt, (tt, (tt, (tt, tt))))

abbrev stopped : BTimer
stopped = record {
  mode = TimerMode.one_shot;
  handle = none;
  duration = 1;
  has_callback = false;
  timer_expiry = true;
  waits = [];
}

one_shot_expires_example :
    let armed = (start stopped 500 100 true true).1 in
    let served = (timeout_cb armed 600 true true).1 in
    let polled = is_expired served true in
    (polled.0 ≡ leb (100 + 500) 600) × ((is_expired polled.1 true).0 ≡ false)
one_shot_expires_example = one_shot_expires stopped 500 100 600 true true refl

crc16tab_lem_example : get_elem? crc16tab 255 ≡ some (crc_of_byte 255)
crc16tab_lem_example = crc16tab_lem 255 (omega arith)

-- The default policy with its actions for warnings changed.
abbrev loud : ErrorPolicy
loud = record default_error_policy {
  on_warn_major = ReportingAction.terminate;
  on_warn_minor = ReportingAction.software_reset;
}

process_error_ignores_warnings_example :
    process_error (negsuc 99) default_error_policy false ≡ process_error (negsuc 99) loud false
process_error_ignores_warnings_example =
    process_error_ignores_warnings (negsuc 99) default_error_policy loud refl refl

-- EMU_PASS has the number of EMU_ERR_NULL: a major error, with the text of a null pointer.
emu_pass_category : get_error_category (number EmuErr.emu_pass) ≡ ErrorCategory.error_major
unfolding get_error_category
emu_pass_category = refl

emu_pass_text : error_text EmuErr.emu_pass ≡ error_text EmuErr.emu_err_null
emu_pass_text = refl
