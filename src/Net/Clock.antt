-- ===== src/Net/Clock.antt =====
-- get_current_time_ms of src/util.c.
use dubbo_service_mesh.Base.{ℕ, ◌+◌, ◌*◌, ◌/◌}
use dubbo_service_mesh.Net.{Host}

-- `tv_nsec / 1.0e6`, truncated to a long, is the quotient of the integers: tv_nsec is below 10 ^ 9,
-- and the double is exact where the quotient is.
unfoldable pub get_current_time_ms : {F E : Type 0} → Host F E → E → ℕ × E
get_current_time_ms net e =
    let ((sec, nsec), e') = net.clock_gettime e in (sec * 1000 + nsec / 1000000, e')
