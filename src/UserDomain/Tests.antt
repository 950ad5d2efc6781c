-- ===== src/UserDomain/Tests.antt =====
-- Dates, statuses and resets at concrete inputs.
use over_vpn.Base.{ℕ, ◌+◌, ◌*◌, ◌≤◌, ◌<◌, ◌≡◌, ◌↔◌, refl, arith, none, some, pos, false}
use over_vpn.Schema.{active, expired, limited, device, monthly, yearly}
use over_vpn.Calendar.{Civil, civil, utc, day_ms}
use over_vpn.UserDomain.{UserState, normalize_user_status, calculate_next_reset_at}
use over_vpn.UserDomain.Reset.{InSamePeriod, next_reset_iff}

-- 2024-02-29 12:00 UTC.
abbrev leap_noon : ℕ
leap_noon = 1709208000000

abbrev leap_day : Civil
leap_day = record { year = 54; month = 1; day = 28 }

leap_civil : civil leap_noon ≡ leap_day
unfolding civil over_vpn.Calendar.Walk.walk
leap_civil = refl

monthly_reset : calculate_next_reset_at monthly leap_noon ≡ some 1709251200000
unfolding calculate_next_reset_at utc over_vpn.Calendar.Walk.before civil
    over_vpn.Calendar.Walk.walk
monthly_reset = refl

december_reset : calculate_next_reset_at monthly 1735603200000 ≡ some 1735689600000
unfolding calculate_next_reset_at utc over_vpn.Calendar.Walk.before civil
    over_vpn.Calendar.Walk.walk
december_reset = refl

yearly_reset : calculate_next_reset_at yearly leap_noon ≡ some 1735689600000
unfolding calculate_next_reset_at utc over_vpn.Calendar.Walk.before civil
    over_vpn.Calendar.Walk.walk
yearly_reset = refl

abbrev used_up : UserState
used_up = record {
  expire_at = some 5;
  data_limit_bytes = some (pos 10);
  used_upload_bytes = pos 4;
  used_download_bytes = pos 6;
}

over_quota : (normalize_user_status used_up none none 4).status ≡ limited
unfolding normalize_user_status over_vpn.Base.◌+ℤ◌
over_quota = refl

over_time : (normalize_user_status used_up (some active) none 5).status ≡ expired
unfolding normalize_user_status
over_time = refl

kept_reason :
    (normalize_user_status used_up (some limited) (some device) 5).status_reason ≡ some device
unfolding normalize_user_status
kept_reason = refl

next_reset_iff_example :
    (1709251199999 < 1709251200000) ↔ InSamePeriod monthly leap_noon 1709251199999
next_reset_iff_example =
    next_reset_iff monthly leap_noon 1709251200000 1709251199999 monthly_reset (omega arith)
