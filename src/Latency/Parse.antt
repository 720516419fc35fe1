-- ===== src/Latency/Parse.antt =====
-- network_latency.py: what `tc` prints, read by the patterns `_NETEM_RE` and `_FILTER_IP_RE`.
use faultstorm.Prelude.{
  ℕ, zero, suc, ◌+◌, ◌-◌, ◌*◌, ◌/◌, ◌%◌, ◌^◌, ◌≡◌, refl, Bool, true, not, ◌&&◌, ◌||◌, List, [], ◌∷◌,
  ◌++◌, Option, none, some, pos, Result, ok, err, value_error, leb, if◌then◌else◌, ◌==◌, nat_eq,
  list_eq, is_empty, length, insert,
}
use faultstorm.Prelude.Dict.{Dict}
use faultstorm.Text.{Text, codes, is_space, lstrip, split_on, remove_prefix, first_word}
use faultstorm.Text.Decimal.{is_digit, str_nat}
use faultstorm.Latency.Bands.{BandInfo}

infixl 5 ◌>>=◌
-- A pattern matches at the start of a text, and leaves the rest.
abbrev ◌>>=◌ : {A B : Type 0} → Option A → (A → Option B) → Option B
none >>= f = none
some a >>= f = f a

-- `\s+`
abbrev spaces : Text → Option Text
spaces [] = none
spaces (c ∷ s) = if is_space c then some (lstrip s) else none

-- `\S+`
abbrev token_of : Text × Text → Option (Text × Text)
token_of ([], s) = none
token_of (c ∷ w, s) = some (c ∷ w, s)

abbrev token : Text → Option (Text × Text)
token s = token_of (first_word s)

-- A character of `[\d.]`, and the run of them that a text begins with.
abbrev is_decimal : ℕ → Bool
is_decimal c = is_digit c || c == b'.'

unfoldable pub decimal_run : Text → Text × Text
decimal_run [] = ([], [])
decimal_run (c ∷ s) =
    let (w, rest) = decimal_run s in if is_decimal c then (c ∷ w, rest) else ([], c ∷ s)

-- A character of `\w`, among the ASCII ones.
unfoldable pub is_word : ℕ → Bool
is_word c = is_digit c || (leb b'a' c && leb c b'z') || (leb b'A' c && leb c b'Z') || (c == b'_')

-- `\b` behind a letter
abbrev boundary : Text → Bool
boundary [] = true
boundary (c ∷ s) = not (is_word c)

pub data TimeUnit : Type 0 where
  us ms s : TimeUnit

abbrev unit_at : TimeUnit → Text → Text → Option (TimeUnit × Text)
unit_at u name t = elim (remove_prefix name t) [
  | none ↦ none
  | some rest ↦ if boundary rest then some (u, rest) else none
]

abbrev or_next : {A : Type 0} → Option A → Option A → Option A
or_next none o = o
or_next (some a) o = some a

-- `(?P<unit>us|ms|s)\b`
abbrev time_unit : Text → Option (TimeUnit × Text)
time_unit t =
    or_next (unit_at us (codes "us") t)
      (or_next (unit_at ms (codes "ms") t) (unit_at s (codes "s") t))

-- `delay\s+(?P<delay>[\d.]+)(?P<unit>us|ms|s)\b`
unfoldable pub delay_here : Text → Option ((Text × TimeUnit) × Text)
unfolding remove_prefix is_space lstrip decimal_run is_word first_word
delay_here t = do
  number ← spaces (← remove_prefix (codes "delay") t)
  run ← token_of (decimal_run number)
  unit ← time_unit run.1
  some ((run.0, unit.0), unit.1)

abbrev pub newline : ℕ
newline = 10

-- `.*?`, and then a pattern
unfoldable pub search_line : {A : Type 0} → (Text → Option A) → Text → Option A
search_line here [] = here []
search_line here (c ∷ t) =
    let rest = search_line here t in or_next (here (c ∷ t)) (if c == newline then none else rest)

-- A match of `_NETEM_RE`: the handle, the parent, the delay and its unit.
pub record Netem : Type 0 where
  pub handle : Text
  pub parent : Text
  pub delay : Text
  pub unit : TimeUnit

unfoldable pub netem_here : Text → Option (Netem × Text)
unfolding delay_here search_line
netem_here t = do
  netem ← spaces (← remove_prefix (codes "qdisc") t)
  handle ← token (← spaces (← remove_prefix (codes "netem") netem))
  parent ← token (← spaces (← remove_prefix (codes "parent") (← spaces handle.1)))
  delay ← search_line delay_here (← spaces parent.1)
  some (
    record { handle = handle.0; parent = parent.0; delay = delay.0.0; unit = delay.0.1 },
    delay.1,
  )

-- `pattern.finditer(text)`; the first argument counts the characters of a match that are still to
-- be passed
unfoldable pub find_each : {A : Type 0} → (Text → Option (A × Text)) → ℕ → Text → List A
find_each here skip [] = []
find_each here (suc k) (c ∷ t) = find_each here k t
find_each here zero (c ∷ t) = elim (here (c ∷ t)) [
  | none ↦ find_each here zero t
  | some (a, rest) ↦ a ∷ find_each here (length t - length rest) t
]

-- The value of ASCII digits.
unfoldable pub digits_value : ℕ → Text → ℕ
digits_value acc [] = acc
digits_value acc (c ∷ t) = digits_value (acc * 10 + (c - b'0')) t

-- The first three digits behind the point.
abbrev pub thousandths : Text → Text
thousandths [] = codes "000"
thousandths (a ∷ []) = a ∷ codes "00"
thousandths (a ∷ b ∷ []) = a ∷ b ∷ codes "0"
thousandths (a ∷ b ∷ c ∷ t) = a ∷ b ∷ c ∷ []

-- `int(delay_val / 1000)`, `int(delay_val)` or `int(delay_val * 1000)`, for a decimal number with
-- the digits `whole` and `part`
abbrev pub to_ms : TimeUnit → Text → Text → ℕ
to_ms us whole part = digits_value 0 whole / 1000
to_ms ms whole part = digits_value 0 whole
to_ms s whole part = digits_value 0 (whole ++ thousandths part)

-- `float(m.group("delay"))`, and the conversion
unfoldable pub delay_of : TimeUnit → List Text → Result ℕ
unfolding digits_value
delay_of u (whole ∷ []) = ok (to_ms u whole [])
delay_of u (whole ∷ part ∷ []) =
    if is_empty whole && is_empty part then err value_error else ok (to_ms u whole part)
delay_of u _ = err value_error

unfoldable pub bands_from : List Netem → Dict Text BandInfo → Result (Dict Text BandInfo)
unfolding delay_of split_on insert
bands_from [] bands = ok bands
bands_from (m ∷ more) bands = elim (delay_of m.unit (split_on b'.' m.delay)) [
  | err e ↦ err e
  | ok delay_ms ↦ bands_from more (
      insert m.parent (record { parent = m.parent; handle = m.handle; delay_ms = pos delay_ms })
        bands)
]

-- `_parse_netem_bands`
unfoldable pub parse_netem_bands : Text → Result (Dict Text BandInfo)
unfolding find_each netem_here bands_from
parse_netem_bands out = bands_from (find_each netem_here 0 out) []

-- The value of a lower-case hexadecimal digit.
abbrev pub hex_digit : ℕ → ℕ
hex_digit c = if is_digit c then c - b'0' else c - b'a' + 10

unfoldable pub hex_value : ℕ → Text → ℕ
hex_value acc [] = acc
hex_value acc (c ∷ t) = hex_value (acc * 16 + hex_digit c) t

-- The dotted form of the four bytes; `n >> k & 0xff` is the byte
unfoldable pub dotted : ℕ → Text
unfolding str_nat
dotted n =
    str_nat (n / 2 ^ 24 % 256)
    ++ (b'.'
        ∷ (str_nat (n / 2 ^ 16 % 256)
            ++ (b'.' ∷ (str_nat (n / 2 ^ 8 % 256) ++ (b'.' ∷ str_nat (n % 256))))))

-- `_hex_to_ip`
unfoldable pub hex_to_ip : Text → Text
unfolding hex_value dotted
hex_to_ip t = dotted (hex_value 0 t)

-- `[0-9a-f]{8}`, with the characters that are left to read
unfoldable pub hex_run : ℕ → Text → Option (Text × Text)
hex_run zero t = some ([], t)
hex_run (suc k) [] = none
hex_run (suc k) (c ∷ t) =
    let rest = hex_run k t in
    if is_digit c || (leb b'a' c && leb c b'f')
    then elim rest [ none ↦ none | some (w, u) ↦ some (c ∷ w, u) ]
    else none

-- `flowid\s+(?P<flowid>\S+)`
unfoldable pub flowid_here : Text → Option (Text × Text)
unfolding remove_prefix is_space lstrip first_word
flowid_here t = do rest ← spaces (← remove_prefix (codes "flowid") t); token rest

-- A match of `_FILTER_IP_RE`: the address and the flowid.
unfoldable pub filter_here : Text → Option ((Text × Text) × Text)
unfolding hex_run flowid_here search_line
filter_here t = do
  hex ← hex_run 8 (← spaces (← remove_prefix (codes "match") t))
  at ← spaces (← remove_prefix (codes "/ffffffff") hex.1)
  offset ← spaces (← remove_prefix (codes "at") at)
  flowid ← search_line flowid_here (← remove_prefix (codes "16") offset)
  some ((hex.0, flowid.0), flowid.1)

unfoldable pub flowids_from : List (Text × Text) → Dict Text Text → Dict Text Text
unfolding hex_to_ip insert
flowids_from [] mapping = mapping
flowids_from ((hex, flowid) ∷ more) mapping =
    flowids_from more (insert (hex_to_ip hex) flowid mapping)

-- `_parse_filter_ip_to_band`
unfoldable pub parse_filter_ip_to_band : Text → Dict Text Text
unfolding find_each filter_here flowids_from
parse_filter_ip_to_band out = flowids_from (find_each filter_here 0 out) []

netem_example :
    parse_netem_bands (codes "qdisc netem 20: parent 1:2 limit 1000 delay 50.0ms")
    ≡ ok (
        (codes "1:2", record { parent = codes "1:2"; handle = codes "20:"; delay_ms = pos 50 })
        ∷ [])
unfolding parse_netem_bands
netem_example = refl

-- The flowid is read behind the address, on the same line.
filter_example :
    (parse_filter_ip_to_band (codes "filter match 0ac80003/ffffffff at 16 flowid 1:2")
      ≡ (codes "10.200.0.3", codes "1:2") ∷ [])
    × (parse_filter_ip_to_band (
          codes "filter parent 1: fh 800::800 flowid 1:2"
          ++ (newline ∷ codes "  match 0ac80003/ffffffff at 16"))
        ≡ [])
unfolding parse_filter_ip_to_band
filter_example = (refl, refl)
