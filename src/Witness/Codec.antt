-- ===== src/Witness/Codec.antt =====
-- Amounts and fees.
use account_mapping.Prelude.{◌≡◌, negsuc}
use account_mapping.Codec.Decimal.{parse_amount, big_int_string}
use account_mapping.Codec.Decimal.RoundTrip.{parse_amount-big_int_string}

parse_amount-big_int_string_example : parse_amount (big_int_string (negsuc 41)) ≡ negsuc 41
parse_amount-big_int_string_example = parse_amount-big_int_string (negsuc 41)
