-- ===== src/Examples/Values.antt =====
-- Tests of the arithmetic and the formats of the shared modules, on values of Go's own documentation.
use chaosplane.Prelude.{◌≡◌, refl, ◌*◌, ◌^◌, pos, negsuc, quote, ◌-◌}
use chaosplane.Prelude.Int.{sub64, double64}
use chaosplane.Prelude.Text.{itoa, duration_string}

double_wraps : double64 (pos (2 ^ 62)) ≡ negsuc (2 ^ 63 - 1)
unfolding double64
double_wraps = refl

sub_wraps : sub64 (negsuc (2 ^ 63 - 1)) (pos 1) ≡ pos (2 ^ 63 - 1)
unfolding sub64
sub_wraps = refl

itoa_small : itoa 1070 ≡ "1070"
unfolding itoa
itoa_small = refl

quote_mark : quote "a\"b" ≡ "\"a\\\"b\""
unfolding quote
quote_mark = refl

duration_hours : duration_string (pos (5400 * 10 ^ 9)) ≡ "1h30m0s"
unfolding duration_string
duration_hours = refl

duration_fraction : duration_string (negsuc 1499999999) ≡ "-1.5s"
unfolding duration_string
duration_fraction = refl
