-- ===== src/EventBus/Envelope/RoundTrip.antt =====
-- An envelope survives the wire, and what is rebuilt from a dict is what the dict holds.
use trustlist_core.Base.{◌≡◌, refl, subst, true, some, ◌↔◌, ◌≢◌}
use trustlist_core.Base.Json.{
  Json, null, bool, integer, negative, float, text, array, object, Fields, no_fields, field, find,
  has_distinct_keys,
}
use trustlist_core.Base.Result.{ok, err, or_raise, split_ok, or_raise-ok, ok_injective}
use trustlist_core.EventBus.Errors.{key_error, type_error}
use trustlist_core.EventBus.Stdlib.{Library, Reads}
use trustlist_core.EventBus.Envelope.{
  Provenance, EventEnvelope, subscript, get_or_none, fields_of, provenance_from_dict, to_dict,
  to_bytes, dict_or_empty, from_dict, from_bytes,
}

pub dict_or_empty-object : (py : Library) (fs : Fields) → dict_or_empty py (object fs) ≡ ok fs
unfolding dict_or_empty
dict_or_empty-object py no_fields = refl
dict_or_empty-object py (field k v fs) = refl

pub from_dict-to_dict :
    (py : Library) → Reads py → (e : EventEnvelope) → from_dict py (to_dict py e) ≡ ok e
unfolding from_dict to_dict find
from_dict-to_dict py reads e =
    rw
      (
        reads.uuid_of-text e.event_id,
        reads.fromisoformat-isoformat e.produced_at,
        dict_or_empty-object py e.trace_context,
      )
      refl

-- An envelope is read back from its bytes: `from_bytes` of `to_bytes` returns it, field for field, if
-- no dict within it has a key twice, as no dict of Python has, and the library reads what it prints.
pub from_bytes-to_bytes :
    (py : Library)
    → Reads py
    → (e : EventEnvelope) → has_distinct_keys (to_dict py e) ≡ true
    → from_bytes py (to_bytes py e) ≡ ok e
unfolding from_bytes to_bytes
from_bytes-to_bytes py reads e distinct =
    rw (reads.loads-dumps (to_dict py e) distinct) (from_dict-to_dict py reads e)

-- The dict of a provenance that `p` can come from.
pub record HoldsProvenance (d : Json) (p : Provenance) : Type 0 where
  pub source : subscript d "source" ≡ ok p.source
  pub method : subscript d "method" ≡ ok p.method
  pub contributor : get_or_none (fields_of d) "contributor_identity" ≡ p.contributor_identity

-- The fields of a dict hold the envelope `e`: each required key has the value of `e`, or a text that
-- the library reads as it.
pub record Holds (py : Library) (fs : Fields) (e : EventEnvelope) : Type 1 where
  pub id_text : Json
  pub id_found : find "event_id" fs ≡ some id_text
  pub id_read : py.uuid_of id_text ≡ ok e.event_id
  pub event_type : find "event_type" fs ≡ some e.event_type
  pub event_version : find "event_version" fs ≡ some e.event_version
  pub moment_text : Json
  pub moment_found : find "produced_at" fs ≡ some moment_text
  pub moment_read : py.fromisoformat moment_text ≡ ok e.produced_at
  pub producer_id : find "producer_id" fs ≡ some e.producer_id
  pub trace_context : dict_or_empty py (get_or_none fs "trace_context") ≡ ok e.trace_context
  pub idempotency_key : find "idempotency_key" fs ≡ some e.idempotency_key
  pub origin : Json
  pub origin_found : find "provenance" fs ≡ some origin
  pub provenance : HoldsProvenance origin e.provenance
  pub payload : find "payload" fs ≡ some e.payload

provenance_from_dict-ok :
    (d : Json) (p : Provenance) → provenance_from_dict d ≡ ok p → HoldsProvenance d p
unfolding provenance_from_dict
provenance_from_dict-ok d p built =
    let (source, source_found, b1) = split_ok (subscript d "source") _ p built in
    let (method, method_found, b2) = split_ok (subscript d "method") _ p b1 in
    subst (λ q. HoldsProvenance d q) (ok_injective b2)
      (record { source = source_found; method = method_found; contributor = refl })

provenance_from_dict-Holds :
    (d : Json) (p : Provenance) → HoldsProvenance d p → provenance_from_dict d ≡ ok p
unfolding provenance_from_dict
provenance_from_dict-Holds d p h = rw (h.source, h.method, h.contributor) refl

from_dict-ok :
    (py : Library) (fs : Fields) (e : EventEnvelope)
    → from_dict py (object fs) ≡ ok e
    → Holds py fs e
unfolding from_dict subscript fields_of
from_dict-ok py fs e b0 =
    let (id_text, x1, b1) = split_ok (or_raise (find "event_id" fs) key_error) _ e b0 in
    let (event_id, x2, b2) = split_ok (py.uuid_of id_text) _ e b1 in
    let (event_type, x3, b3) = split_ok (or_raise (find "event_type" fs) key_error) _ e b2 in
    let (version, x4, b4) = split_ok (or_raise (find "event_version" fs) key_error) _ e b3 in
    let (moment_text, x5, b5) = split_ok (or_raise (find "produced_at" fs) key_error) _ e b4 in
    let (moment, x6, b6) = split_ok (py.fromisoformat moment_text) _ e b5 in
    let (producer, x7, b7) = split_ok (or_raise (find "producer_id" fs) key_error) _ e b6 in
    let (trace, x8, b8) = split_ok (dict_or_empty py (get_or_none fs "trace_context")) _ e b7 in
    let (key, x9, b9) = split_ok (or_raise (find "idempotency_key" fs) key_error) _ e b8 in
    let (origin, x10, b10) = split_ok (or_raise (find "provenance" fs) key_error) _ e b9 in
    let (provenance, x11, b11) = split_ok (provenance_from_dict origin) _ e b10 in
    let (payload, x12, b12) = split_ok (or_raise (find "payload" fs) key_error) _ e b11 in
    subst (λ e. Holds py fs e) (ok_injective b12)
      (record {
        id_text = id_text;
        id_found = or_raise-ok (find "event_id" fs) key_error id_text x1;
        id_read = x2;
        event_type = or_raise-ok (find "event_type" fs) key_error event_type x3;
        event_version = or_raise-ok (find "event_version" fs) key_error version x4;
        moment_text = moment_text;
        moment_found = or_raise-ok (find "produced_at" fs) key_error moment_text x5;
        moment_read = x6;
        producer_id = or_raise-ok (find "producer_id" fs) key_error producer x7;
        trace_context = x8;
        idempotency_key = or_raise-ok (find "idempotency_key" fs) key_error key x9;
        origin = origin;
        origin_found = or_raise-ok (find "provenance" fs) key_error origin x10;
        provenance = provenance_from_dict-ok origin provenance x11;
        payload = or_raise-ok (find "payload" fs) key_error payload x12;
      })

from_dict-Holds :
    (py : Library) (fs : Fields) (e : EventEnvelope)
    → Holds py fs e
    → from_dict py (object fs) ≡ ok e
unfolding from_dict subscript fields_of
from_dict-Holds py fs e h =
    rw
      (
        h.id_found,
        h.id_read,
        h.event_type,
        h.event_version,
        h.moment_found,
        h.moment_read,
        h.producer_id,
        h.trace_context,
        h.idempotency_key,
        h.origin_found,
        provenance_from_dict-Holds h.origin e.provenance h.provenance,
        h.payload,
      )
      refl

-- `from_dict` of a dict returns an envelope exactly when the dict holds it: all required keys are
-- there, the id and the moment are readable, and the optional trace context makes a dict. No
-- field is taken from elsewhere, and none is defaulted but the trace context and the contributor.
pub from_dict_iff :
    (py : Library) (fs : Fields) (e : EventEnvelope)
    → (from_dict py (object fs) ≡ ok e) ↔ Holds py fs e
from_dict_iff py fs e = (from_dict-ok py fs e, from_dict-Holds py fs e)

-- A value that is no dict is refused with TypeError.
pub from_dict-not_object :
    (py : Library) (d : Json) → ((fs : Fields) → d ≢ object fs) → from_dict py d ≡ err type_error
unfolding from_dict subscript
from_dict-not_object py (object fs) other = absurd (other fs refl)
from_dict-not_object py null other = refl
from_dict-not_object py (bool b) other = refl
from_dict-not_object py (integer n) other = refl
from_dict-not_object py (negative n) other = refl
from_dict-not_object py (float s) other = refl
from_dict-not_object py (text s) other = refl
from_dict-not_object py (array xs) other = refl
