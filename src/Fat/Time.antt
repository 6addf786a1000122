-- ===== src/Fat/Time.antt =====
-- Timestamps of directory entries in src/fs/fat.c. fat_get_timestamp is declared weak, so that a
-- kernel may put its clock in its place: what it gives is an argument of the operations.
use beaner_os.Base.{ℕ, ◌+◌, ◌-◌, ◌*◌, ◌/◌, ◌%◌, ◌^◌, ◌≤◌, ◌<◌, ◌≡◌, arith}

pub record Timestamp : Type 0 where
  pub hour : ℕ
  pub min : ℕ
  pub sec : ℕ
  pub day : ℕ
  pub month : ℕ
  pub year : ℕ

-- The weak fat_get_timestamp, the only one in the repository.
abbrev pub default_timestamp : Timestamp
default_timestamp = record { hour = 0; min = 0; sec = 0; day = 1; month = 1; year = 1980 }

-- The parts that are joined by `|` share no bit.
unfoldable pub encode_timestamp : Timestamp → ℕ × ℕ
encode_timestamp ts = (
  (ts.year + 2 ^ 32 - 1980) % 64 * 2 ^ 9 + ts.month % 16 * 2 ^ 5 + ts.day % 32,
  ts.sec / 2 % 32 + ts.min % 64 * 2 ^ 5 + ts.hour % 32 * 2 ^ 11,
)

unfoldable pub decode_timestamp : (date time : ℕ) → Timestamp
decode_timestamp date time = record {
  day = date % 32;
  month = date / 2 ^ 5 % 16;
  year = date / 2 ^ 9 % 64 + 1980;
  hour = time / 2 ^ 11 % 32;
  min = time / 2 ^ 5 % 64;
  sec = 2 * (time % 32);
}

-- The fields of a timestamp are those of a clock and a calendar.
pub record IsTime (ts : Timestamp) : Type 0 where
  pub hour_in : ts.hour < 24
  pub min_in : ts.min < 60
  pub sec_in : ts.sec < 60
  pub day_in : ts.day ≤ 31
  pub month_in : ts.month ≤ 12
  pub year_from : 1980 ≤ ts.year

fieldwise :
    (a b : Timestamp)
    → a.hour ≡ b.hour
    → a.min ≡ b.min
    → a.sec ≡ b.sec
    → a.day ≡ b.day
    → a.month ≡ b.month
    → a.year ≡ b.year
    → a ≡ b
fieldwise a b p q r s t u i = record {
  hour = p i;
  min = q i;
  sec = r i;
  day = s i;
  month = t i;
  year = u i;
}

-- A time of the years from 1980 on is read back as it was written, but for the second, which is
-- rounded down to an even one, and the year, which is taken modulo 64 from 1980.
pub decode_timestamp-encode_timestamp :
    (ts : Timestamp)
    → IsTime ts
    → decode_timestamp (encode_timestamp ts).0 (encode_timestamp ts).1
      ≡ record ts { sec = ts.sec - ts.sec % 2; year = (ts.year - 1980) % 64 + 1980 }
unfolding decode_timestamp encode_timestamp
decode_timestamp-encode_timestamp ts t =
    fieldwise _ _ (omega (arith, t.hour_in)) (omega (arith, t.min_in)) (omega (arith, t.sec_in))
      (omega (arith, t.day_in)) (omega (arith, t.month_in)) (omega (arith, t.year_from))
