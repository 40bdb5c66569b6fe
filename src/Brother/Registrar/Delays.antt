-- ===== src/Brother/Registrar/Delays.antt =====
-- scanbus-backend-brother/src/registrar.rs: the lease against the delays of the refresh task.
use scanbus_service.Common.{ℕ, ◌+◌, ◌*◌, ◌≤◌, arith}
use scanbus_service.Brother.Register.{from_secs}
use scanbus_service.Brother.Registrar.{refresh_delay, retry_delay}

-- `RESPONSE_TIMEOUT`, for each of the four panel entries.
abbrev pub longest_round : ℕ
longest_round = 4 * from_secs 2

-- With a lease of a minute or more, a failed round is tried again after 5 to 60 seconds, and a renewal
-- whose round fails is tried a second time before the lease is over, even if no entry of either round
-- is answered before its timeout.
pub retry_in_lease :
    (duration : ℕ)
    → from_secs 60 ≤ duration
    → (from_secs 5 ≤ retry_delay duration)
      × (retry_delay duration ≤ from_secs 60)
      × (refresh_delay duration + longest_round + (retry_delay duration + longest_round) ≤ duration)
unfolding retry_delay
retry_in_lease duration h = ground arith
