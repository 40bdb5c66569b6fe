-- ===== src/Tests/Cli.antt =====
-- A duration on the command line.
use scanbus_service.Common.{◌*◌, ◌≡◌, ◌++◌, ltb, if◌then◌else◌, arith}
use scanbus_service.Common.Decimal.{print, max_u64}
use scanbus_service.Common.Result.{ok, err}
use scanbus_service.Cli.Duration.{parse_duration, too_long_duration}
use scanbus_service.Cli.Duration.Units.{seconds, suffix_of, millis_of, parse_duration-print}

parse_duration-print_example : parse_duration (print 30 ++ suffix_of seconds) ≡ (
    if ltb max_u64 (30 * millis_of seconds)
    then err (too_long_duration (print 30 ++ suffix_of seconds))
    else ok (30 * millis_of seconds))
parse_duration-print_example = parse_duration-print 30 seconds (omega arith)
