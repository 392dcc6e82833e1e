-- ===== src/Observability/Logging/Schema.antt =====
-- The lines of a structured logger: their schema, what is refused, and that each comes once.
use trustlist_core.Base.{
  ℕ, zero, suc, some, String, ◌≡◌, refl, ap, sym, ◌∙◌, Bool, true, false, none, List, [], ◌∷◌, ◌==◌,
  String-eq, ==_iff, is_some, arith, Bool-cases, Option-cases, inl, inr, subst,
}
use trustlist_core.Base.Lists.{any, contains}
use trustlist_core.Base.Json.{
  Json, null, text, Fields, no_fields, field, find, update_fields, drop_field, find-put,
  find-update_fields,
}
use trustlist_core.Observability.Logging.{
  Printing, Ambient, reserved_fields, LogRecord, format_id, schema_of, entry_of, collides,
}

find-drop_field : (k j : String) (fs : Fields) → find k fs ≡ none → find k (drop_field j fs) ≡ none
unfolding find drop_field
find-drop_field k j no_fields absent = refl
find-drop_field k j (field i v fs) absent = ground (arith, absent, find-drop_field k j fs)

any-contains :
    (p : String → Bool) (k : String) (xs : List String)
    → any p xs ≡ false
    → contains k xs ≡ true
    → p k ≡ false
any-contains p k [] clear member = cc
any-contains p k (x ∷ xs) clear member = elim (Bool-cases (x == k)) [
  | inl here ↦
      let same : x ≡ k = ground (arith, ==_iff x k, here) in
      let head : p x ≡ false = ground (arith, clear) in ap p (sym same) ∙ head
  | inr elsewhere ↦ any-contains p k xs (ground (arith, clear)) (ground (arith, member, elsewhere))
]

collides-find :
    (k : String) (fs : Fields)
    → collides fs ≡ false
    → contains k reserved_fields ≡ true
    → find k fs ≡ none
unfolding collides
collides-find k fs clear reserved =
    let unset = any-contains (λ name. is_some (find name fs)) k reserved_fields clear reserved in
    elim (Option-cases (find k fs)) [
      | inl absent ↦ absent
      | inr (v, present) ↦ cc (sym (ap is_some present) ∙ unset)
    ]

exception-free : (k : String) → contains k reserved_fields ≡ true → ("exception" == k) ≡ false
exception-free k reserved = elim (Bool-cases ("exception" == k)) [
  | inr different ↦ different
  | inl same ↦
      let equal : ◌≡◌ {A = String} "exception" k = ground (arith, ==_iff "exception" k, same) in
      cc (subst (λ k. contains k reserved_fields ≡ true) (sym equal) reserved)
]

kept_fields :
    (py : Printing) (a : Ambient) (r : LogRecord) (k : String)
    → collides r.fields ≡ false
    → contains k reserved_fields ≡ true
    → find k (update_fields (schema_of py a r) r.fields) ≡ find k (schema_of py a r)
kept_fields py a r k clear reserved =
    find-update_fields k (schema_of py a r) r.fields (collides-find k r.fields clear reserved)

-- A reserved name has in the entry what it has in the schema.
entry_of-schema_of :
    (py : Printing) (a : Ambient) (r : LogRecord) (k : String)
    → collides r.fields ≡ false
    → contains k reserved_fields ≡ true
    → find k (entry_of py a r) ≡ find k (schema_of py a r)
unfolding entry_of
entry_of-schema_of py a r k clear reserved = elim (Bool-cases r.exc_info) [
  | inl traced ↦
      rw
        (
          traced,
          find-put "exception" k (text a.traceback) (update_fields (schema_of py a r) r.fields),
          exception-free k reserved,
        )
        (kept_fields py a r k clear reserved)
  | inr plain ↦ rw plain (kept_fields py a r k clear reserved)
]

-- The id in hex digits, and null where there is no span.
abbrev pub id_or_null : Printing → ℕ → ℕ → Json
id_or_null py digits zero = null
id_or_null py digits (suc n) = text (py.hex digits (suc n))

format_id_lem : (py : Printing) (digits n : ℕ) → format_id py digits n ≡ id_or_null py digits n
unfolding format_id
format_id_lem py digits zero = refl
format_id_lem py digits (suc n) = ground arith

-- The fields of a call never shadow the schema: if the call is not refused for its fields, the entry of
-- its record has, with or without a traceback, the time of the record, the name of its level, the
-- component of the logger, the ids of the current trace and span in 32 and 16 hex digits, or null
-- where they are zero, and the message.
pub entry_of_lem :
    (py : Printing) (a : Ambient) (r : LogRecord)
    → collides r.fields ≡ false
    → (find "timestamp" (entry_of py a r) ≡ some (text (py.isoformat a.created)))
      × (find "level" (entry_of py a r) ≡ some (text (py.level_name r.level)))
      × (find "component" (entry_of py a r) ≡ some (text r.component))
      × (find "trace_id" (entry_of py a r) ≡ some (id_or_null py 32 a.trace_id))
      × (find "span_id" (entry_of py a r) ≡ some (id_or_null py 16 a.span_id))
      × (find "message" (entry_of py a r) ≡ some (text r.message))
unfolding schema_of find
entry_of_lem py a r clear = (
  entry_of-schema_of py a r "timestamp" clear refl,
  entry_of-schema_of py a r "level" clear refl,
  entry_of-schema_of py a r "component" clear refl,
  entry_of-schema_of py a r "trace_id" clear refl ∙ ap some (format_id_lem py 32 a.trace_id),
  entry_of-schema_of py a r "span_id" clear refl ∙ ap some (format_id_lem py 16 a.span_id),
  entry_of-schema_of py a r "message" clear refl,
)
