-- ===== src/Tests/Figures.antt =====
-- The theorems on what is counted and printed.
use iog.Prelude.{arith, ◌≡◌, refl}
use iog.Configuration.{codes}
use iog.Format.{unit_name, to_f64, unit_of, hundredths, format_bytes}
use iog.Format.Within.{IsClose}
use iog.Format.Printed.{reading, format_bytes-IsClose}

-- The values of the tests in gateway/utils.rs, and two that are rounded.
no_bytes : format_bytes 0 ≡ codes "0 B"
unfolding format_bytes
no_bytes = refl

half_kilobyte : format_bytes 512 ≡ codes "512 B"
unfolding format_bytes
half_kilobyte = refl

kilobyte : format_bytes 1024 ≡ codes "1.00 KB"
unfolding format_bytes
kilobyte = refl

megabyte : format_bytes 1048576 ≡ codes "1.00 MB"
unfolding format_bytes
megabyte = refl

rounded : format_bytes 1234567 ≡ codes "1.18 MB"
unfolding format_bytes
rounded = refl

largest : format_bytes 18446744073709551615 ≡ codes "16777216.00 TB"
unfolding format_bytes
largest = refl

format_bytes-IsClose_example :
    (reading 0 (format_bytes 1234567) ≡ (118, unit_name 2)) × IsClose 1234567 2 118 0
unfolding unit_of to_f64 hundredths
format_bytes-IsClose_example = format_bytes-IsClose 1234567 (omega arith)
