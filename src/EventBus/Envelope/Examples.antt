-- ===== src/EventBus/Envelope/Examples.antt =====
-- The theorems of this directory at a small envelope.
use trustlist_core.Base.{◌≡◌, refl, ◌↔◌, true}
use trustlist_core.Base.Json.{text, object, Fields, no_fields, find, has_distinct_keys}
use trustlist_core.Base.Result.{ok}
use trustlist_core.EventBus.Samples.{tally_library, tally_library-Reads, crawl, noon, body}
use trustlist_core.EventBus.Envelope.{
  EventEnvelope, to_dict, to_bytes, provenance_to_dict, fields_of, from_dict, from_bytes,
}
use trustlist_core.EventBus.Envelope.RoundTrip.{from_bytes-to_bytes, Holds, from_dict_iff}

abbrev seen_domain : EventEnvelope
seen_domain = record {
  event_type = text "signals.observed";
  event_version = text "1.0.0";
  producer_id = text "collector";
  idempotency_key = text "k1";
  provenance = crawl;
  payload = object body;
  trace_context = no_fields;
  event_id = 4;
  produced_at = noon;
}

seen_domain-distinct : has_distinct_keys (to_dict tally_library seen_domain) ≡ true
unfolding has_distinct_keys to_dict provenance_to_dict find
seen_domain-distinct = refl

from_bytes-to_bytes_example :
    from_bytes tally_library (to_bytes tally_library seen_domain) ≡ ok seen_domain
from_bytes-to_bytes_example =
    from_bytes-to_bytes tally_library tally_library-Reads seen_domain seen_domain-distinct

abbrev seen_fields : Fields
seen_fields = fields_of (to_dict tally_library seen_domain)

from_dict_iff_example :
    (from_dict tally_library (object seen_fields) ≡ ok seen_domain)
    ↔ Holds tally_library seen_fields seen_domain
from_dict_iff_example = from_dict_iff tally_library seen_fields seen_domain
