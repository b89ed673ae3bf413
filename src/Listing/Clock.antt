-- ===== src/Listing/Clock.antt =====
-- The times of HW1/myps.c and HW1/info.c.
use kernel_programming.Prelude.{ℕ, ◌+◌, ◌*◌, ◌^◌, ◌<◌, ◌≤◌, ◌≡◌, arith}
use kernel_programming.Listing.{Psinfo, print_ps, uptime, CpuLine, cpu_round}

-- The fields that `print_ps` prints are a time of day of the same length as the CPU time, but the
-- entry keeps the seconds only, so the same entry printed once more has no hours and no minutes.
pub print_ps-total :
    (ps : Psinfo)
    → let r = print_ps ps in
      (r.hour * 3600 + r.minute * 60 + r.second ≡ ps.cputime)
      × (r.minute < 60)
      × (r.second < 60)
      × ((print_ps r.left).hour ≡ 0)
      × ((print_ps r.left).minute ≡ 0)
      × ((print_ps r.left).second ≡ r.second)
unfolding print_ps
print_ps-total ps = omega arith

-- The fields of `uptime` are within their ranges and make up the seconds.
pub uptime-total :
    (seconds : ℕ)
    → let (day, hour, minute, second) = uptime seconds in
      (day * 86400 + hour * 3600 + minute * 60 + second ≡ seconds)
      × (hour < 24)
      × (minute < 60)
      × (second < 60)
unfolding uptime
uptime-total seconds = omega arith

-- While the columns do not overflow, the used time is the total without the idle and the waiting
-- time.
pub cpu_round-used :
    (c : CpuLine)
    → c.t_user + c.t_nice + c.t_system + c.t_idle + c.t_iowait + c.t_irq + c.t_softirq + c.t_steal
        + c.t_guest + c.t_guest_nice
      < 2 ^ 64
    → let st = cpu_round c in (st.used ≤ st.total) × (st.used + c.t_idle + c.t_iowait ≡ st.total)
unfolding cpu_round
cpu_round-used c few = omega arith
