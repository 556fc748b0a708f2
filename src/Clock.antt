-- ===== src/Clock.antt =====
-- Points in time as Go's time package gives them to the program: `time.Time{}`, Unix, UnixNano,
-- Equal and Add. Used by params/params.go, logging/syslog.go, datastore/influxdb/influxdb.go and
-- apiserver/controllers/controllers.go.
pub mod Laws
use coriolis_logger.Common.{
  ℕ, suc, ◌+◌, ◌-◌, ◌*◌, ◌/◌, ◌%◌, Bool, ◌&&◌, ltb, eqb, if◌then◌else◌, ℤ, pos, negsuc, neg, ◌+ℤ◌,
  ◌*ℤ◌, eqb_ℤ, wrap64,
}

-- Seconds since the Unix epoch, and the nanoseconds of the second.
pub record Time : Type 0 where
  pub sec : ℤ
  pub nsec : ℕ

-- `time.Time{}`: the first of January of the year 1.
abbrev pub zero_time : Time
zero_time = record { sec = negsuc 62135596799; nsec = 0 }

abbrev pub equal : Time → Time → Bool
equal a b = eqb_ℤ a.sec b.sec && eqb a.nsec b.nsec

-- `time.Unix(i, 0)`
abbrev pub unix : ℤ → Time
unix i = record { sec = i; nsec = 0 }

abbrev pub second : ℕ
second = 1000000000

-- In int64, whose range ends in the year 2262.
unfoldable pub unix_nano : Time → ℤ
unix_nano t = wrap64 (t.sec *ℤ pos second +ℤ pos t.nsec)

-- `t.Add(d)` for `d` nanoseconds.
unfoldable pub add : Time → ℤ → Time
add t (pos d) =
    let nsec = t.nsec + d % second in
    if ltb nsec second
    then record { sec = t.sec +ℤ pos (d / second); nsec = nsec }
    else record { sec = t.sec +ℤ pos (d / second + 1); nsec = nsec - second }
add t (negsuc d) =
    let nsec = suc d % second in
    if ltb t.nsec nsec
    then record { sec = t.sec +ℤ neg (pos (suc d / second + 1)); nsec = t.nsec + second - nsec }
    else record { sec = t.sec +ℤ neg (pos (suc d / second)); nsec = t.nsec - nsec }
