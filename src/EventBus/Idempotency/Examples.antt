-- ===== src/EventBus/Idempotency/Examples.antt =====
-- The theorems of this directory for digests that read one key only.
use trustlist_core.Base.{
  String, ◌≡◌, refl, true, false, Option, none, some, [], ◌∷◌, ==_iff, subst, arith, String-eq,
}
use trustlist_core.Base.Lists.{contains}
use trustlist_core.Base.Json.{Json, integer, text, object, Fields, no_fields, field, find}
use trustlist_core.EventBus.Idempotency.{
  Digests, SortsKeys, Alike, same, arrays, objects, AlikeFound, absent, found,
  derive_idempotency_key, is_empty,
}
use trustlist_core.EventBus.Idempotency.Stable.{refused, derive-stable}

abbrev text_of : Json → String
text_of (text s) = s
text_of _ = ""

abbrev text_found : Option Json → String
text_found none = ""
text_found (some j) = text_of j

-- the event type of a document
abbrev kind_of : Json → String
kind_of (object fs) = text_found (find "event_type" fs)
kind_of _ = ""

text_of-Alike : (j k : Json) → Alike j k → text_of j ≡ text_of k
text_of-Alike j k (same _) = refl
text_of-Alike j k (arrays xs ys alike) = refl
text_of-Alike j k (objects fs gs alike) = refl

text_found-Alike : (x y : Option Json) → AlikeFound x y → text_found x ≡ text_found y
text_found-Alike x y absent = refl
text_found-Alike x y (found j k alike) = text_of-Alike j k alike

kind_of-Alike : (j k : Json) → Alike j k → kind_of j ≡ kind_of k
kind_of-Alike j k (same _) = refl
kind_of-Alike j k (arrays xs ys alike) = refl
kind_of-Alike j k (objects fs gs alike) =
    text_found-Alike (find "event_type" fs) (find "event_type" gs) (alike "event_type")

abbrev by_kind : Digests
by_kind = record { canonical_json = kind_of; sha256_hex = λ s. s }

by_kind-SortsKeys : SortsKeys by_kind
by_kind-SortsKeys = record { canonical_json-Alike = kind_of-Alike }

abbrev signal : Fields
signal = field "domain_id" (text "d1") (field "signal_class" (text "dns") no_fields)

-- the same data in another order, with one more field
abbrev signal_again : Fields
signal_again =
    field "score" (integer 3)
      (field "signal_class" (text "dns") (field "domain_id" (text "d1") no_fields))

not_refused : refused signal ("domain_id" ∷ []) ≡ false
unfolding find is_empty
not_refused = refl

not_refused_again : refused signal_again ("domain_id" ∷ "domain_id" ∷ []) ≡ false
unfolding find is_empty
not_refused_again = refl

chosen_name : (k : String) → contains k ("domain_id" ∷ []) ≡ true → "domain_id" ≡ k
chosen_name k chosen = ground (arith, chosen, ==_iff "domain_id" k)

domain_id-Alike :
    (k : String)
    → contains k ("domain_id" ∷ []) ≡ true
    → AlikeFound (find k signal) (find k signal_again)
unfolding find
domain_id-Alike k chosen =
    subst (λ k. AlikeFound (find k signal) (find k signal_again)) (chosen_name k chosen)
      (found (text "d1") (text "d1") (same (text "d1")))

derive-stable_example :
    derive_idempotency_key by_kind "signal" signal ("domain_id" ∷ [])
    ≡ derive_idempotency_key by_kind "signal" signal_again ("domain_id" ∷ "domain_id" ∷ [])
derive-stable_example =
    derive-stable by_kind by_kind-SortsKeys "signal" signal signal_again ("domain_id" ∷ [])
      ("domain_id" ∷ "domain_id" ∷ []) not_refused not_refused_again (λ k. ground arith)
      domain_id-Alike
