-- ===== src/ErrorHandler/Categories.antt =====
-- Which categories and actions ErrorHandler/errorHandler.cpp can reach.
use data_dump_protocol.Base.{◌≡◌, ◌⊎◌, false, arith}
use data_dump_protocol.Base.Int.{ℤ, pos, negsuc, ◌≤ℤ◌, ◌<ℤ◌}
use data_dump_protocol.ErrorHandler.{
  ErrorCategory, ErrorPolicy, get_error_category, process_error, emu_success, emu_error_major,
  emu_error_minor,
}

-- Every code has one of three categories by its value: -30..-1 is a major error, -60..-31 a minor
-- one, and all the rest, success and the warnings included, a minor warning.
pub get_error_category_lem :
    (error : ℤ)
    → ((emu_error_major ≤ℤ error)
        × (error <ℤ emu_success)
        × (get_error_category error ≡ ErrorCategory.error_major))
      ⊎ ((emu_error_minor ≤ℤ error)
          × (error <ℤ emu_error_major)
          × (get_error_category error ≡ ErrorCategory.error_minor))
      ⊎ (((emu_success ≤ℤ error) ⊎ (error <ℤ emu_error_minor))
          × (get_error_category error ≡ ErrorCategory.warn_minor))
unfolding get_error_category
get_error_category_lem (pos n) = ground arith
get_error_category_lem (negsuc n) = ground arith

-- Without a callback the policy's actions for warnings are never performed: the reaction to a code is
-- the same under two policies that agree on major and minor errors.
pub process_error_ignores_warnings :
    (error : ℤ) (p q : ErrorPolicy)
    → p.on_error_major ≡ q.on_error_major
    → p.on_error_minor ≡ q.on_error_minor
    → process_error error p false ≡ process_error error q false
unfolding process_error
process_error_ignores_warnings (pos n) p q a b = ground arith
process_error_ignores_warnings (negsuc n) p q a b = ground arith
