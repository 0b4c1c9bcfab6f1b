-- ===== src/Wso2/Metadata/Acs.antt =====
-- internal/wso2/saml.go: `collectACSURLs`.
pub mod Laws
use wso2is_operator.Base.{
  String, List, [], ◌∷◌, ◌++◌, none, some, Slice, ℤ, ltb_ℤ, ◌==◌, if◌then◌else◌,
}
use wso2is_operator.Wso2.Metadata.Descriptor.{AssertionConsumerService}

-- The variables of the loop.
pub record AcsScan : Type 0 where
  pub urls : List String
  pub default_url : String
  pub lowest_index : ℤ
  pub lowest_url : String

-- One round of the loop.
unfoldable pub acs_round : AcsScan → AssertionConsumerService → AcsScan
acs_round st acs = record {
  urls = st.urls ++ (acs.location ∷ []);
  default_url = if acs.is_default then acs.location else st.default_url;
  lowest_index = if ltb_ℤ acs.index st.lowest_index then acs.index else st.lowest_index;
  lowest_url = if ltb_ℤ acs.index st.lowest_index then acs.location else st.lowest_url;
}

unfoldable pub acs_loop : AcsScan → List AssertionConsumerService → AcsScan
unfolding acs_round
acs_loop st [] = st
acs_loop st (acs ∷ services) = acs_loop (acs_round st acs) services

-- The state before the loop, from the first service.
abbrev acs_start : AssertionConsumerService → AcsScan
acs_start first = record {
  urls = [];
  default_url = "";
  lowest_index = first.index;
  lowest_url = first.location;
}

abbrev acs_result : AcsScan → Slice String × String
acs_result st = (some st.urls, if st.default_url == "" then st.lowest_url else st.default_url)

unfoldable pub collect_acs_urls : List AssertionConsumerService → Slice String × String
unfolding acs_loop
collect_acs_urls [] = (none, "")
collect_acs_urls (first ∷ rest) = acs_result (acs_loop (acs_start first) (first ∷ rest))
