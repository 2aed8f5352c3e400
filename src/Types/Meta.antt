-- ===== src/Types/Meta.antt =====
-- Object metadata, secret references and time, as Kubernetes declares them.
use tsdb_operator.Base.{ℕ, String, Option, none, some, List, Bool, true, Map, nat_eq}

-- Nanoseconds since the first instant of year 1, which is Go's zero time.
abbrev pub Time : Type 0
Time = ℕ

-- `(*metav1.Time).IsZero`: nil, or the zero time
abbrev pub is_zero_time : Option Time → Bool
is_zero_time none = true
is_zero_time (some t) = nat_eq t 0

pub record Key : Type 0 where
  pub namespace : String
  pub name : String

pub record OwnerReference : Type 0 where
  pub name : String
  pub controller : Bool

-- The fields of metav1.ObjectMeta that the program reads or writes. A nil map is `none`.
pub record ObjectMeta : Type 0 where
  pub name : String
  pub namespace : String
  pub labels : Map String
  pub annotations : Option (Map String)
  pub finalizers : List String
  pub deletion_timestamp : Option Time
  pub owners : List OwnerReference

abbrev pub key_of : ObjectMeta → Key
key_of m = record { namespace = m.namespace; name = m.name }

pub record LocalObjectReference : Type 0 where
  pub name : String

pub record SecretKeySelector : Type 0 where
  pub name : String
  pub key : String
