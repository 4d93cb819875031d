-- ===== src/Runner/JsonPath/Tests.antt =====
-- Blanks before an index.
use sentinel_api_platform.Prelude.{negsuc, ◌≡◌, refl, some}
use sentinel_api_platform.Prelude.Checked.{good, bad}
use sentinel_api_platform.Runner.JsonPath.{
  bad_index, parse_part, scan_int, scan_signed, scan_natural, scan_digits, int_in_range,
}

tab_run : parse_part "a[\t -1]" ≡ good ("a", some (negsuc 0))
unfolding parse_part scan_int scan_signed scan_natural scan_digits int_in_range
tab_run = refl

-- A newline ends the scan.
newline_run : parse_part "a[\n1]" ≡ bad bad_index
unfolding parse_part scan_int scan_signed scan_natural scan_digits int_in_range
newline_run = refl
