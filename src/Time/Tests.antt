-- ===== src/Time/Tests.antt =====
-- Times and conversions at concrete values.
use libcmm.Prelude.{◌+◌, ◌<◌, ◌≡◌, ◌⊎◌, some, none, arith}
use libcmm.Time.{
  Time, max_usecs, timeradd, timediff, convert_to_useconds, convert_to_timeval, IsNormal, total,
  convert_to_useconds-convert_to_timeval, convert_to_timeval-convert_to_useconds, timeradd_lem,
  timediff_lem,
}

abbrev early : Time
early = record { tv_sec = 5; subseconds = 900000 }

abbrev late : Time
late = record { tv_sec = 7; subseconds = 200000 }

convert_to_useconds-convert_to_timeval_example :
    IsNormal max_usecs (convert_to_timeval 7200000)
    × (convert_to_useconds (convert_to_timeval 7200000) ≡ 7200000)
convert_to_useconds-convert_to_timeval_example =
    convert_to_useconds-convert_to_timeval 7200000 (omega arith)

convert_to_timeval-convert_to_useconds_example :
    convert_to_timeval (convert_to_useconds late) ≡ late
convert_to_timeval-convert_to_useconds_example =
    convert_to_timeval-convert_to_useconds late (omega arith) (omega arith)

timeradd_lem_example :
    IsNormal max_usecs (timeradd max_usecs early late)
    × (total max_usecs (timeradd max_usecs early late)
        ≡ total max_usecs early + total max_usecs late)
timeradd_lem_example = timeradd_lem max_usecs early late (omega arith) (omega arith)

timediff_lem_example :
    ((timediff max_usecs early late ≡ none) × (total max_usecs late < total max_usecs early))
    ⊎ ((d : Time) × (timediff max_usecs early late ≡ some d)
        × IsNormal max_usecs d
        × (timeradd max_usecs early d ≡ late))
timediff_lem_example = timediff_lem max_usecs early late (omega arith) (omega arith)
