-- ===== src/Listing.antt =====
-- HW1: the orders and the times of myps.c, the uptime and the load of info.c. Reading /proc and
-- printing are not modelled. An int or a long is taken modulo its size.
pub mod Order
pub mod Clock
mod Tests
use kernel_programming.Prelude.{ℕ, ◌+◌, ◌-◌, ◌*◌, ◌/◌, ◌%◌, ◌^◌, ltb, if◌then◌else◌}
use kernel_programming.Prelude.Int.{ℤ, pos, negsuc}

-- The numbers of `struct psinfo`, unsigned longs but for the int `pid`.
pub record Psinfo : Type 0 where
  pub pid : ℕ
  pub vsize : ℕ
  pub cputime : ℕ

-- The int of the last 32 bits.
unfoldable pub to_int : ℕ → ℤ
to_int n = let low = n % 2 ^ 32 in if ltb low (2 ^ 31) then pos low else negsuc (2 ^ 32 - low - 1)

-- `b_ - a_`, a long long, returned as an int.
unfoldable pub descending : ℕ → ℕ → ℤ
unfolding to_int
descending a b = to_int ((b + 2 ^ 64 - a) % 2 ^ 64)

unfoldable pub psinfo_cmp_cputime : Psinfo → Psinfo → ℤ
unfolding descending
psinfo_cmp_cputime a b = descending a.cputime b.cputime

unfoldable pub psinfo_cmp_vsize : Psinfo → Psinfo → ℤ
unfolding descending
psinfo_cmp_vsize a b = descending a.vsize b.vsize

-- The hours, minutes and seconds that `print_ps` prints, and the entry, whose `cputime` it changes,
-- for a time whose hours are an int.
pub record Printed : Type 0 where
  pub hour : ℕ
  pub minute : ℕ
  pub second : ℕ
  pub left : Psinfo

unfoldable pub print_ps : Psinfo → Printed
print_ps ps =
    let hour = ps.cputime / 3600 in
    let rest = ps.cputime - hour * 3600 in
    let minute = rest / 60 in
    let second = rest - minute * 60 in
    record { hour = hour; minute = minute; second = second; left = record ps { cputime = second } }

-- The days, hours, minutes and seconds of `uptime`.
unfoldable pub uptime : ℕ → ℕ × ℕ × ℕ × ℕ
uptime seconds =
    let day = seconds / (24 * 3600) in
    let rest = seconds - day * (24 * 3600) in
    let hour = rest / 3600 in
    let rest' = rest - hour * 3600 in
    let minute = rest' / 60 in (day, hour, minute, rest' - minute * 60)

-- The columns of a line of /proc/stat.
pub record CpuLine : Type 0 where
  pub t_user : ℕ
  pub t_nice : ℕ
  pub t_system : ℕ
  pub t_idle : ℕ
  pub t_iowait : ℕ
  pub t_irq : ℕ
  pub t_softirq : ℕ
  pub t_steal : ℕ
  pub t_guest : ℕ
  pub t_guest_nice : ℕ

pub record Cpustat : Type 0 where
  pub total : ℕ
  pub used : ℕ

-- The round of `get_cpu_usage` for a line, in unsigned longs.
unfoldable pub cpu_round : CpuLine → Cpustat
cpu_round c =
    let t_total =
      (c.t_user + c.t_nice + c.t_system + c.t_idle + c.t_iowait + c.t_irq + c.t_softirq + c.t_steal
        + c.t_guest + c.t_guest_nice)
      % 2 ^ 64 in
    record { total = t_total; used = (t_total + 2 ^ 64 + 2 ^ 64 - c.t_iowait - c.t_idle) % 2 ^ 64 }
