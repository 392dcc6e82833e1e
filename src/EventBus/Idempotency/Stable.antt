-- ===== src/EventBus/Idempotency/Stable.antt =====
-- When a key is derived, and that it depends on the data of the chosen fields only.
use trustlist_core.Base.{
  String, ◌≡◌, refl, sym, ap, ◌∙◌, subst, Bool, true, false, not, Option, List, [], ◌∷◌, ◌||◌,
  if◌then◌else◌, is_some, ◌==◌, String-eq, ==_iff, arith, Bool-cases, Option-cases, ◌↔◌, inl, inr,
}
use trustlist_core.Base.Lists.{contains, any}
use trustlist_core.Base.Json.{Json, text, object, Fields, no_fields, find, put, find-put}
use trustlist_core.Base.Result.{ok, err}
use trustlist_core.EventBus.Errors.{value_error}
use trustlist_core.EventBus.Idempotency.{
  Digests, SortsKeys, Alike, same, objects, AlikeFound, absent, found, missing_of, gather, is_empty,
  document_of, derive_idempotency_key,
}

-- Some name of the list is no key of the payload.
abbrev pub lacks : Fields → List String → Bool
lacks payload names = any (λ name. not (is_some (find name payload))) names

missing_of-lacks :
    (payload : Fields) (names : List String)
    → not (is_empty (missing_of payload names)) ≡ lacks payload names
unfolding missing_of is_empty
missing_of-lacks payload [] = refl
missing_of-lacks payload (name ∷ names) = ground (arith, missing_of-lacks payload names)

-- What the gathered fields find.
abbrev gathered : Fields → List String → Fields → String → Option Json
gathered payload names collected k = if contains k names then find k payload else find k collected

gather-find :
    (payload : Fields) (names : List String) (collected : Fields)
    → lacks payload names ≡ false
    → (fs : Fields) × (gather payload names collected ≡ ok fs)
      × ((k : String) → find k fs ≡ gathered payload names collected k)
unfolding gather
gather-find payload [] collected full = (collected, refl, λ k. refl)
gather-find payload (name ∷ names) collected full = elim (Option-cases (find name payload)) [
  | inl none_found ↦ absurd (ground (arith, none_found, full))
  | inr (v, here) ↦
      let (fs, built, finds) =
        gather-find payload names (put name v collected) (ground (arith, here, full)) in
      (
        fs,
        rw here built,
        λ k. ground (arith, finds k, find-put name k v collected, ==_iff name k, here),
      )
]

-- The names are refused.
abbrev pub refused : Fields → List String → Bool
refused payload names = is_empty names || lacks payload names

derive-refused :
    (py : Digests) (event_type : String) (payload : Fields) (names : List String)
    → refused payload names ≡ true
    → derive_idempotency_key py event_type payload names ≡ err value_error
unfolding derive_idempotency_key is_empty
derive-refused py event_type payload [] bad = refl
derive-refused py event_type payload (name ∷ names) bad =
    rw (missing_of-lacks payload (name ∷ names), bad) refl

derive-built :
    (py : Digests) (event_type : String) (payload : Fields) (names : List String)
    → refused payload names ≡ false
    → (fs : Fields) × (derive_idempotency_key py event_type payload names
        ≡ ok (py.sha256_hex (py.canonical_json (document_of event_type fs))))
      × ((k : String) → find k fs ≡ gathered payload names no_fields k)
unfolding derive_idempotency_key is_empty
derive-built py event_type payload [] good = cc
derive-built py event_type payload (name ∷ names) good =
    let (fs, built, finds) = gather-find payload (name ∷ names) no_fields good in
    (fs, rw (missing_of-lacks payload (name ∷ names), good, built) refl, finds)

-- `derive_idempotency_key` raises ValueError exactly when no field is named, or some named field is
-- absent from the payload.
pub derive-refuses :
    (py : Digests) (event_type : String) (payload : Fields) (names : List String)
    → (derive_idempotency_key py event_type payload names ≡ err value_error)
      ↔ (refused payload names ≡ true)
derive-refuses py event_type payload names = (
  λ refuses. elim (Bool-cases (refused payload names)) [
    | inl bad ↦ bad
    | inr good ↦
        let (fs, built, finds) = derive-built py event_type payload names good in
        cc (sym built ∙ refuses)
  ],
  derive-refused py event_type payload names,
)

gathered-Alike :
    (payload other : Fields) (names others : List String) (k : String)
    → contains k names ≡ contains k others
    → (contains k names ≡ true → AlikeFound (find k payload) (find k other))
    → AlikeFound (gathered payload names no_fields k) (gathered other others no_fields k)
unfolding find
gathered-Alike payload other names others k members alike = elim (Bool-cases (contains k names)) [
  | inl chosen ↦ rw (sym members, chosen) (alike chosen)
  | inr left_out ↦ rw (sym members, left_out) absent
]

either-Alike :
    (b : Bool) (x y v w : Option Json)
    → AlikeFound x y
    → AlikeFound v w
    → AlikeFound (if b then x else v) (if b then y else w)
either-Alike true x y v w first second = first
either-Alike false x y v w first second = second

document_of-Alike :
    (event_type : String) (fs gs : Fields)
    → ((k : String) → AlikeFound (find k fs) (find k gs))
    → Alike (document_of event_type fs) (document_of event_type gs)
unfolding document_of find
document_of-Alike event_type fs gs alike = objects _ _ (λ k.
    either-Alike ("event_type" == k) _ _ _ _
      (found (text event_type) (text event_type) (same (text event_type)))
      (either-Alike ("key_fields" == k) _ _ _ _
        (found (object fs) (object gs) (objects fs gs alike)) absent))

-- The key depends on the data of the chosen fields only: neither the order of the payload's keys, nor
-- that of the keys of dicts within its values, nor the order or repetition of the chosen names, nor
-- the other fields change it. Neither call may be refused, and json has to sort keys.
pub derive-stable :
    (py : Digests)
    → SortsKeys py
    → (event_type : String) (payload other : Fields) (names others : List String)
    → refused payload names ≡ false
    → refused other others ≡ false
    → ((k : String) → contains k names ≡ contains k others)
    → ((k : String) → contains k names ≡ true → AlikeFound (find k payload) (find k other))
    → derive_idempotency_key py event_type payload names
      ≡ derive_idempotency_key py event_type other others
derive-stable py sorts event_type payload other names others full full_other members alike =
    let (fs, built, finds) = derive-built py event_type payload names full in
    let (gs, built_other, finds_other) = derive-built py event_type other others full_other in
    built
    ∙ ap (λ t. ok (py.sha256_hex t))
        (sorts.canonical_json-Alike (document_of event_type fs) (document_of event_type gs) (
          document_of-Alike event_type fs gs (λ k.
            subst (λ f. AlikeFound f (find k gs)) (sym (finds k))
              (subst (λ g. AlikeFound (gathered payload names no_fields k) g) (sym (finds_other k))
                (gathered-Alike payload other names others k (members k) (alike k))))))
    ∙ sym built_other
