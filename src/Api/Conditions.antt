-- ===== src/Api/Conditions.antt =====
-- api/v1alpha1/conditions.go: condition types and reasons, and the helpers of
-- k8s.io/apimachinery/pkg/api/meta that the controllers call. A condition's message and its
-- lastTransitionTime are left out: no branch reads them.
use le_to_alicloud.Prelude.{
  ℕ, ◌≡◌, Bool, true, false, Option, none, some, List, [], ◌∷◌, ◌==◌, if◌then◌else◌,
}

pub data ConditionType : Type 0 where
  ready issued uploaded issuer_default_diverged applied conflict : ConditionType

pub data Reason : Type 0 where
  no_issuer diverged secret_name_conflict certificate_not_ready issuance_stalled : Reason
  secret_not_found secret_invalid self_signed_during_issuance sans_mismatch : Reason
  credentials_not_found credentials_invalid upload_failed throttled : Reason
  deletion_blocked cleanup_failed cleanup_abandoned upload_disabled is_ready : Reason
  certificate_not_found target_not_found domain_not_covered cas_upload_required : Reason
  conflicting_binding no_conflict account_mismatch apply_failed observe_failed : Reason
  drift_corrected was_applied : Reason

pub Reason-discrete : Discrete Reason
Reason-discrete = hlevel

pub data ConditionStatus : Type 0 where
  is_true is_false unknown : ConditionStatus

pub record Condition : Type 0 where
  pub type : ConditionType
  pub status : ConditionStatus
  pub reason : Reason
  pub observed_generation : ℕ

abbrev type_tag : ConditionType → ℕ
type_tag ready = 0
type_tag issued = 1
type_tag uploaded = 2
type_tag issuer_default_diverged = 3
type_tag applied = 4
type_tag conflict = 5

-- `a == b` on condition types
abbrev pub same_type : ConditionType → ConditionType → Bool
same_type a b = type_tag a == type_tag b

abbrev pub status_is_true : Option Condition → Bool
status_is_true none = false
status_is_true (some c) = elim c.status [ is_true ↦ true | _ ↦ false ]

-- `for i := range conditions` up to the first condition of the type
unfoldable pub first_of_type : ConditionType → List Condition → Option Condition
first_of_type t [] = none
first_of_type t (c ∷ cs) = if same_type c.type t then some c else first_of_type t cs

-- The apimachinery helpers, with what they document: `find` returns the first condition of the
-- type, and `set` changes the condition of its type and no other.
pub record Meta : Type 0 where
  pub set_status_condition : List Condition → Condition → List Condition
  pub find_status_condition : List Condition → ConditionType → Option Condition
  pub is_status_condition_true : List Condition → ConditionType → Bool
  pub find_first :
      (cs : List Condition) (t : ConditionType) → find_status_condition cs t ≡ first_of_type t cs
  pub find_set :
      (cs : List Condition) (c : Condition) (t : ConditionType)
      → find_status_condition (set_status_condition cs c) t
        ≡ (if same_type c.type t then some c else find_status_condition cs t)
  pub is_true_find :
      (cs : List Condition) (t : ConditionType)
      → is_status_condition_true cs t ≡ status_is_true (find_status_condition cs t)
