-- ===== src/System/Quiet.antt =====
-- Ways on which no worker reports and no user asks, and the times of their steps.
use hilforge.Base.{ℕ, ◌+◌, ◌≡◌, Bool, true, false, ◌&&◌, leb}
use hilforge.Config.{Settings}
use hilforge.System.{
  System, Step, Reach, registers, beats, scans, creates, claims, reports, dies, reconciles, here,
  next,
}

-- Claims and reconciliations; no report, and no request of a user.
unfoldable pub is_unattended : {settings : Settings} {s t : System} → Step settings s t → Bool
is_unattended (claims job_id task now c db' apart e) = true
is_unattended (reconciles now locked ids db' e) = true
is_unattended _ = false

unfoldable pub unattended : {settings : Settings} {s t : System} → Reach settings s t → Bool
unfolding is_unattended
unattended here = true
unattended (next r step) = unattended r && is_unattended step

unfoldable pub steps_of : {settings : Settings} {s t : System} → Reach settings s t → ℕ
steps_of here = 0
steps_of (next r step) = steps_of r + 1

-- The time of a step; the loss of a worker happens at the time of the step before.
unfoldable pub time_of : {settings : Settings} {s t : System} → ℕ → Step settings s t → ℕ
time_of before (registers registration new_id now fresh) = now
time_of before (beats device_id heartbeat now device db' e) = now
time_of before (scans now) = now
time_of before (creates env request run ids db' fresh e) = env.now
time_of before (claims job_id task now c db' apart e) = now
time_of before (reports f earlier others now elapsed reply r split e) = now
time_of before (dies f earlier others split) = before
time_of before (reconciles now locked ids db' e) = now

-- The time after a way that starts at a time.
unfoldable pub clock_of : {settings : Settings} {s t : System} → ℕ → Reach settings s t → ℕ
unfolding time_of
clock_of from here = from
clock_of from (next r step) = time_of (clock_of from r) step

-- On the way no step comes before the one that it follows.
unfoldable pub is_on_time : {settings : Settings} {s t : System} → ℕ → Reach settings s t → Bool
unfolding clock_of time_of
is_on_time from here = true
is_on_time from (next r step) =
    is_on_time from r && leb (clock_of from r) (time_of (clock_of from r) step)

-- Claims and reconciliations alone, in the order of their times.
abbrev pub IsQuiet : {settings : Settings} {s t : System} → ℕ → Reach settings s t → Type 0
IsQuiet from r = (unattended r ≡ true) × (is_on_time from r ≡ true)
