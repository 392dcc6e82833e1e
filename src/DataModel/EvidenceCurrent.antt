-- ===== src/DataModel/EvidenceCurrent.antt =====
-- data-model/migrations/versions/0001_create_canonical_data_model.py: the query of the materialised view
-- `evidence_current`, on the rows of the table `evidence`. A UUID and a moment are numbers; the collation
-- of texts is a parameter.
pub mod Sorting
pub mod Latest
use trustlist_core.Base.{ℕ, String, Bool, not, ◌&&◌, Option, List, [], ◌∷◌, ◌==◌, String-eq, ℕ-eq}
use trustlist_core.Base.Lists.{keep}
use Sorting.{Order, ascending, descending, by, then_by, order_by}

pub record Evidence : Type 0 where
  pub evidence_id : ℕ
  pub domain_id : ℕ
  pub signal_class : String
  pub source : String
  pub method : String
  pub source_url : String
  pub observed_at : ℕ
  pub recorded_at : ℕ
  pub contributor_identity : Option String
  pub observed_value : String
  pub provenance_id : ℕ

-- The expressions `(domain_id, signal_class, source_url)` are equal.
abbrev pub same_key : Evidence → Evidence → Bool
same_key r s =
    (r.domain_id == s.domain_id)
    && (r.signal_class == s.signal_class)
    && (r.source_url == s.source_url)

-- `SELECT DISTINCT ON`: the first row of each group of rows that agree.
abbrev pub distinct_on : {A : Type 0} → (A → A → Bool) → List A → List A
distinct_on same [] = []
distinct_on same (r ∷ rs) = r ∷ keep (λ s. not (same r s)) (distinct_on same rs)

module _ (collation : Order String) where
  -- `ORDER BY domain_id, signal_class, source_url, observed_at DESC, recorded_at DESC,
  -- evidence_id DESC`
  unfoldable pub evidence_order : Order Evidence
  evidence_order = then_by (by (λ r. r.domain_id) ascending) (
      then_by (by (λ r. r.signal_class) collation) (
        then_by (by (λ r. r.source_url) collation) (
          then_by (by (λ r. r.observed_at) (descending ascending)) (
            then_by (by (λ r. r.recorded_at) (descending ascending))
              (by (λ r. r.evidence_id) (descending ascending))))))

  unfoldable pub evidence_current : List Evidence → List Evidence
  unfolding evidence_order
  evidence_current rows = distinct_on same_key (order_by evidence_order rows)
