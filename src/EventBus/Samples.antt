-- ===== src/EventBus/Samples.antt =====
-- A concrete library for the examples: bytes are the values themselves, and numbers are written as
-- tally marks.
use Prim.Native.Char.{Char, code}
use Prim.Native.String.{[], ◌∷◌}
use trustlist_core.Base.{
  ℕ, zero, suc, String, ◌≡◌, refl, ap, Option, none, some, if◌then◌else◌, nat_eq,
}
use trustlist_core.Base.Json.{Json, text, Fields, no_fields, field}
use trustlist_core.Base.Result.{Result, ok, err}
use trustlist_core.EventBus.Errors.{BusError, value_error, type_error}
use trustlist_core.EventBus.Stdlib.{Moment, Library, Reads}
use trustlist_core.EventBus.Envelope.{Provenance}

abbrev mark : Char
mark = "|"

abbrev stop : Char
stop = "+"

abbrev marks : ℕ → String → String
marks zero rest = rest
marks (suc n) rest = mark ∷ marks n rest

abbrev tally_of : String → ℕ
tally_of [] = 0
tally_of (c ∷ s) = suc (tally_of s)

abbrev later : Moment → Moment
later m = record m { reading = suc m.reading }

abbrev moment_of : String → Moment
moment_of [] = record { reading = 0; offset = none }
moment_of (c ∷ s) =
    let rest = moment_of s in
    if nat_eq (code c) 124 then later rest else record { reading = 0; offset = some (tally_of s) }

abbrev zone : Option ℕ → String
zone none = []
zone (some n) = stop ∷ marks n []

abbrev read_text {ℓ} : {A : Type ℓ} → (String → A) → Json → Result BusError A
read_text f (text s) = ok (f s)
read_text f _ = err type_error

abbrev pub tally_library : Library
tally_library = record {
  Bytes = Json;
  dumps = λ j. j;
  loads = λ j. ok j;
  uuid_text = λ n. marks n [];
  uuid_of = read_text tally_of;
  isoformat = λ m. marks m.reading (zone m.offset);
  fromisoformat = read_text moment_of;
  dict_of_list = λ xs. err value_error;
}

tally_of-marks : (n : ℕ) → tally_of (marks n []) ≡ n
tally_of-marks zero = refl
tally_of-marks (suc n) = ap suc (tally_of-marks n)

moment_of-marks :
    (n : ℕ) (offset : Option ℕ)
    → moment_of (marks n (zone offset)) ≡ record { reading = n; offset = offset }
moment_of-marks zero none = refl
moment_of-marks zero (some o) = ap (λ o. record { reading = 0; offset = some o }) (tally_of-marks o)
moment_of-marks (suc n) offset = ap later (moment_of-marks n offset)

pub tally_library-Reads : Reads tally_library
tally_library-Reads = record {
  loads-dumps = λ j distinct. refl;
  uuid_of-text = λ n. ap ok (tally_of-marks n);
  fromisoformat-isoformat = λ m. ap ok (moment_of-marks m.reading m.offset);
}

abbrev pub crawl : Provenance
crawl = record {
  source = text "system";
  method = text "dns-lookup";
  contributor_identity = text "none";
}

abbrev pub noon : Moment
noon = record { reading = 3; offset = some 1 }

abbrev pub body : Fields
body = field "domain_id" (text "d1") no_fields
