-- ===== src/System/Kube.antt =====
-- The Kubernetes objects and results that the reconcilers handle, besides the custom resources.
use wso2is_operator.Base.{String, List, Option}

-- `types.NamespacedName`
pub record ObjectKey : Type 0 where
  pub namespace : String
  pub name : String

-- `corev1.Secret`. `string_data` is `none` for a nil map; `contents` is its `Data`; the owner is
-- the name of the object that controls it.
pub record Secret : Type 0 where
  pub key : ObjectKey
  pub string_data : Option (List (String × String))
  pub contents : Option (List (String × String))
  pub owner : Option String

pub record ConfigMap : Type 0 where
  pub key : ObjectKey
  pub contents : List (String × String)

-- The result of `client.Get`: the object, an error that `apierrors.IsNotFound` recognises, or
-- another error. An error is its message.
pub data Lookup (A : Type 0) : Type 0 where
  found : A → Lookup A
  not_found : String → Lookup A
  failed : String → Lookup A

pub data EventType : Type 0 where
  normal warning : EventType

-- What is said of an event: its type, reason and action. Its note is left out.
pub record Event : Type 0 where
  pub kind : EventType
  pub reason : String
  pub action : String
