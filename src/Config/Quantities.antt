-- ===== src/Config/Quantities.antt =====
-- `quantityToNATSSize` of internal/natsconfig/convert.go.
use nats_operator_experiment.Common.{
  ℕ, ◌*◌, ◌/◌, ◌%◌, ◌^◌, Str, codes, Option, none, some, [], ◌++◌, Bool, ◌&&◌, leb, ◌==◌,
  if◌then◌else◌, str_eq,
}
use nats_operator_experiment.Common.Int.{ℤ, pos, negsuc}
use nats_operator_experiment.Common.Decimal.{format_nat, format_int, read_nat}
use nats_operator_experiment.Api.Meta.{Quantity}

abbrev pub kibi : ℕ
kibi = 2 ^ 10

abbrev pub mebi : ℕ
mebi = 2 ^ 20

abbrev pub gibi : ℕ
gibi = 2 ^ 30

abbrev pub tebi : ℕ
tebi = 2 ^ 40

-- `bytes >= unit && bytes % unit == 0`
abbrev fits_unit : ℕ → ℕ → Bool
fits_unit bytes unit = leb unit bytes && ((bytes % unit) == 0)

-- `bytes` is an int64; each test asks for at least one unit, so a negative one reaches the default
unfoldable pub size_of_bytes : ℤ → Str
size_of_bytes (negsuc n) = format_int (negsuc n)
size_of_bytes (pos bytes) =
    if fits_unit bytes tebi
    then format_nat (bytes / tebi) ++ codes "TI"
    else if fits_unit bytes gibi
    then format_nat (bytes / gibi) ++ codes "GI"
    else if fits_unit bytes mebi
    then format_nat (bytes / mebi) ++ codes "MI"
    else if fits_unit bytes kibi
    then format_nat (bytes / kibi) ++ codes "KI"
    else format_nat bytes

unfoldable pub quantity_to_nats_size : Quantity → Str
unfolding size_of_bytes
quantity_to_nats_size q = size_of_bytes q.value

-- what NATS reads in a unit: base-2 suffixes and none
read_unit : Str → Option ℕ
read_unit s =
    if str_eq s []
    then some 1
    else if str_eq s (codes "KI")
    then some kibi
    else if str_eq s (codes "MI")
    then some mebi
    else if str_eq s (codes "GI")
    then some gibi
    else if str_eq s (codes "TI")
    then some tebi
    else none

scale : ℕ × Str → Option ℕ
scale (n, unit) = elim (read_unit unit) [ none ↦ none | some u ↦ some (n * u) ]

-- a size as NATS reads it: a number, then a unit
unfoldable pub read_size : Str → Option ℕ
unfolding scale read_unit
read_size s = scale (read_nat 0 s)
