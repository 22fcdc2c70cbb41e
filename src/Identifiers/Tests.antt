-- ===== src/Identifiers/Tests.antt =====
-- Runs of the identifiers, paths and timestamps on concrete inputs.
use vds_guardian.Prelude.{list_beq, ◌≡◌, ◌↔◌, refl, true, false, ok, err}
use vds_guardian.Text.{str, len, bytes, encode, split, strip_prefix}
use vds_guardian.Identifiers.{
  BackupId, RemotePath, Timestamp, covers, child, parse_timestamp, parse_remote_path,
  valid_remote_root, valid_absolute_path, days_in_month, invalid_timestamp, is_utc_timestamp,
  has_timestamp_shape, in_calendar, digits, digits_but, marks_at, fold_digits,
}
use vds_guardian.Identifiers.Segments.{IsValidPath, IsPrefix, segments, covers_iff}
use vds_guardian.Identifiers.Dates.{DateTime, IsValidDate, print, parse_timestamp_iff}

abbrev backup_1 : BackupId
backup_1 = record { as_str = str "backup-1" }

abbrev srv : RemotePath
srv = record { as_str = str "/srv" }

abbrev srv_data : RemotePath
srv_data = record { as_str = str "/srv/data" }

abbrev srv_data_db : RemotePath
srv_data_db = record { as_str = str "/srv/data/db" }

abbrev leap_day : Timestamp
leap_day = record { as_str = str "2024-02-29T23:59:59Z" }

srv-IsValid : IsValidPath srv
unfolding valid_remote_root valid_absolute_path split len bytes encode list_beq
srv-IsValid = refl

srv_data-IsValid : IsValidPath srv_data
unfolding valid_remote_root valid_absolute_path split len bytes encode list_beq
srv_data-IsValid = refl

srv_data_db-IsValid : IsValidPath srv_data_db
unfolding valid_remote_root valid_absolute_path split len bytes encode list_beq
srv_data_db-IsValid = refl

covers-srv : covers srv srv_data ≡ true
unfolding covers strip_prefix list_beq
covers-srv = refl

covers-srv_data : covers srv_data srv_data_db ≡ true
unfolding covers strip_prefix list_beq
covers-srv_data = refl

-- A sibling that only shares the letters is not covered.
covers_sibling : covers srv (record { as_str = str "/srv2" }) ≡ false
unfolding covers strip_prefix list_beq
covers_sibling = refl

no_leap_day : parse_timestamp (str "2023-02-29T00:00:00Z") ≡ err invalid_timestamp
unfolding parse_timestamp is_utc_timestamp has_timestamp_shape marks_at digits_but in_calendar
    digits fold_digits days_in_month bytes encode
no_leap_day = refl

child_db : child srv_data (str "db") ≡ ok srv_data_db
unfolding child parse_remote_path valid_remote_root valid_absolute_path split len bytes encode
    list_beq
child_db = refl

covers_iff_example : (covers srv srv_data ≡ true) ↔ IsPrefix (segments srv) (segments srv_data)
covers_iff_example = covers_iff srv srv_data srv-IsValid srv_data-IsValid

srv_data-covers_itself : covers srv_data srv_data ≡ true
unfolding covers strip_prefix list_beq
srv_data-covers_itself = refl

parse_timestamp_iff_example : (parse_timestamp (str "2024-02-29T23:59:59Z") ≡ ok leap_day) ↔ (
    (leap_day.as_str ≡ str "2024-02-29T23:59:59Z")
    × ((d : DateTime) × IsValidDate d × (str "2024-02-29T23:59:59Z" ≡ print d)))
parse_timestamp_iff_example = parse_timestamp_iff (str "2024-02-29T23:59:59Z") leap_day
