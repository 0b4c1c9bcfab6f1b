-- ===== src/Wso2/Metadata/Config/Laws.antt =====
-- Which certificate and which endpoints a configuration takes from its descriptor.
use wso2is_operator.Base.{
  String, Bool, true, false, List, [], ◌∷◌, Option, none, some, ◌==◌, find, any, if◌then◌else◌, ◌≡◌,
  refl, sym, ◌∙◌, ap, arith, Bool-cases, inl, inr,
}
use wso2is_operator.Wso2.App.{SamlConfig}
use wso2is_operator.Wso2.Metadata.Descriptor.{
  KeyDescriptor, AttributeConsumingService, IdpssoDescriptor, SpssoDescriptor,
}
use wso2is_operator.Wso2.Metadata.Alias.{derive_alias}
use wso2is_operator.Wso2.Metadata.Config.{
  raw_cert, signs, encrypts, sp_key_round, sp_key_loop, sp_base, with_attributes, idp_key,
  idp_key_loop, idp_base, sp_config_from_descriptor, idp_config_from_descriptor,
}

-- A key descriptor with a certificate that serves to verify signatures.
abbrev pub is_signing_key : KeyDescriptor → Bool
is_signing_key kd = if raw_cert kd == "" then false else signs kd

-- A key descriptor with a certificate that serves to encrypt assertions.
abbrev pub is_encryption_key : KeyDescriptor → Bool
is_encryption_key kd = if raw_cert kd == "" then false else encrypts kd

abbrev pub cert_of : Option KeyDescriptor → String
cert_of none = ""
cert_of (some kd) = raw_cert kd

abbrev pub alias_of : String → Option KeyDescriptor → String
alias_of entity_id none = ""
alias_of entity_id (some kd) = derive_alias (raw_cert kd) entity_id

abbrev enable : Bool → SamlConfig → SamlConfig
enable b cfg = record cfg {
  do_enable_encrypted_assertion = if b then true else cfg.do_enable_encrypted_assertion;
}

-- The configuration with a certificate, if one is given.
abbrev choose : String → SamlConfig → Option KeyDescriptor → SamlConfig
choose entity_id cfg none = cfg
choose entity_id cfg (some kd) = idp_key entity_id cfg kd

enable-enable :
    (b c : Bool) (cfg : SamlConfig) → enable c (enable b cfg) ≡ enable (if b then true else c) cfg
enable-enable true true cfg = refl
enable-enable true false cfg = refl
enable-enable false c cfg = refl

abbrev chosen_now : SamlConfig → KeyDescriptor → Option KeyDescriptor
chosen_now cfg kd =
    if cfg.certificate_content == "" then if is_signing_key kd then some kd else none else none

sp_key_round_lem :
    (entity_id : String) (cfg : SamlConfig) (kd : KeyDescriptor)
    → sp_key_round entity_id cfg kd
      ≡ enable (is_encryption_key kd) (choose entity_id cfg (chosen_now cfg kd))
unfolding sp_key_round
sp_key_round_lem entity_id cfg kd = elim (Bool-cases (raw_cert kd == "")) [
  | inl e ↦ elim (Bool-cases (cfg.certificate_content == "")) [
    | inl c ↦ rw (e, c) refl
    | inr c ↦ rw (e, c) refl
  ]
  | inr e ↦ elim (Bool-cases (signs kd)) [
    | inl s ↦ elim (Bool-cases (cfg.certificate_content == "")) [
      | inl c ↦ elim (Bool-cases (encrypts kd)) [
        | inl x ↦ rw (e, s, c, x) refl
        | inr x ↦ rw (e, s, c, x) refl
      ]
      | inr c ↦ elim (Bool-cases (encrypts kd)) [
        | inl x ↦ rw (e, s, c, x) refl
        | inr x ↦ rw (e, s, c, x) refl
      ]
    ]
    | inr s ↦ elim (Bool-cases (cfg.certificate_content == "")) [
      | inl c ↦ elim (Bool-cases (encrypts kd)) [
        | inl x ↦ rw (e, s, c, x) refl
        | inr x ↦ rw (e, s, c, x) refl
      ]
      | inr c ↦ elim (Bool-cases (encrypts kd)) [
        | inl x ↦ rw (e, s, c, x) refl
        | inr x ↦ rw (e, s, c, x) refl
      ]
    ]
  ]
]

choose-enable :
    (entity_id : String) (b : Bool) (cfg : SamlConfig) (o : Option KeyDescriptor)
    → choose entity_id (enable b cfg) o ≡ enable b (choose entity_id cfg o)
choose-enable entity_id b cfg none = refl
choose-enable entity_id b cfg (some kd) = refl

-- Once a certificate is chosen, the loop looks for encryption keys alone.
sp_key_loop_chosen :
    (entity_id : String) (kds : List KeyDescriptor) (cfg : SamlConfig)
    → (cfg.certificate_content == "") ≡ false
    → sp_key_loop entity_id cfg kds ≡ enable (any is_encryption_key kds) cfg
unfolding sp_key_loop any
sp_key_loop_chosen entity_id [] cfg h = refl
sp_key_loop_chosen entity_id (kd ∷ kds) cfg h =
    ap (λ c. sp_key_loop entity_id c kds) (sp_key_round_lem entity_id cfg kd)
    ∙ rw h (
        sp_key_loop_chosen entity_id kds (enable (is_encryption_key kd) cfg) h
        ∙ enable-enable (is_encryption_key kd) (any is_encryption_key kds) cfg)

signing-ne-nil : (kd : KeyDescriptor) → is_signing_key kd ≡ true → (raw_cert kd == "") ≡ false
signing-ne-nil kd h = elim (Bool-cases (raw_cert kd == "")) [ inl e ↦ cc (rw e at h) | inr e ↦ e ]

sp_key_loop_lem :
    (entity_id : String) (kds : List KeyDescriptor) (cfg : SamlConfig)
    → (cfg.certificate_content == "") ≡ true
    → sp_key_loop entity_id cfg kds
      ≡ enable (any is_encryption_key kds) (choose entity_id cfg (find is_signing_key kds))
unfolding sp_key_loop any find
sp_key_loop_lem entity_id [] cfg h = refl
sp_key_loop_lem entity_id (kd ∷ kds) cfg h =
    ap (λ c. sp_key_loop entity_id c kds) (sp_key_round_lem entity_id cfg kd)
    ∙ rw h (elim (Bool-cases (is_signing_key kd)) [
      | inl s ↦ rw s (
          sp_key_loop_chosen entity_id kds
            (enable (is_encryption_key kd) (idp_key entity_id cfg kd)) (signing-ne-nil kd s)
          ∙ enable-enable (is_encryption_key kd) (any is_encryption_key kds) _)
      | inr s ↦ rw s (
          sp_key_loop_lem entity_id kds (enable (is_encryption_key kd) cfg) h
          ∙ ap (enable (any is_encryption_key kds)) (choose-enable entity_id _ cfg _)
          ∙ enable-enable (is_encryption_key kd) (any is_encryption_key kds) _)
    ])

idp_key_loop_lem :
    (entity_id : String) (cfg : SamlConfig) (kds : List KeyDescriptor)
    → idp_key_loop entity_id cfg kds ≡ choose entity_id cfg (find is_signing_key kds)
unfolding idp_key_loop find
idp_key_loop_lem entity_id cfg [] = refl
idp_key_loop_lem entity_id cfg (kd ∷ kds) = elim (Bool-cases (raw_cert kd == "")) [
  | inl e ↦ rw e (idp_key_loop_lem entity_id cfg kds)
  | inr e ↦ elim (Bool-cases (signs kd)) [
    | inl s ↦ rw (e, s) refl
    | inr s ↦ rw (e, s) (idp_key_loop_lem entity_id cfg kds)
  ]
]

-- The certificate settings of a configuration: the certificate, its alias, and encryption.
abbrev pub cert_settings : SamlConfig → String × String × Bool
cert_settings cfg = (cfg.certificate_content, cfg.cert_alias, cfg.do_enable_encrypted_assertion)

cert_settings-with_attributes :
    (l : List AttributeConsumingService) (cfg : SamlConfig)
    → cert_settings (with_attributes l cfg) ≡ cert_settings cfg
cert_settings-with_attributes [] cfg = refl
cert_settings-with_attributes (_ ∷ _) cfg = refl

-- The settings after the loop, from a configuration that has none.
cert_settings-choose :
    (entity_id : String) (cfg : SamlConfig) (o : Option KeyDescriptor) (b : Bool)
    → cert_settings cfg ≡ ("", "", false)
    → cert_settings (enable b (choose entity_id cfg o)) ≡ (cert_of o, alias_of entity_id o, b)
cert_settings-choose entity_id cfg none true e = cc
cert_settings-choose entity_id cfg none false e = e
cert_settings-choose entity_id cfg (some kd) true e = refl
cert_settings-choose entity_id cfg (some kd) false e = ground arith

-- The configuration of an SP has the certificate of the first key descriptor that can sign, or
-- none, with the alias that goes with it, and encrypts assertions exactly if some key descriptor can
-- encrypt. Key descriptors with a blank certificate are passed over.
pub sp_config_from_descriptor-cert_settings :
    (entity_id : String) (sp : SpssoDescriptor)
    → let kd = find is_signing_key sp.key_descriptors in
      cert_settings (sp_config_from_descriptor entity_id sp)
      ≡ (cert_of kd, alias_of entity_id kd, any is_encryption_key sp.key_descriptors)
unfolding sp_config_from_descriptor
sp_config_from_descriptor-cert_settings entity_id sp =
    cert_settings-with_attributes sp.attribute_consuming_services _
    ∙ ap cert_settings (sp_key_loop_lem entity_id sp.key_descriptors (sp_base entity_id sp) refl)
    ∙ cert_settings-choose entity_id (sp_base entity_id sp) _ _ refl

-- The configuration of an IdP has the same choice of certificate.
idp_config_from_descriptor-cert :
    (entity_id : String) (idp : IdpssoDescriptor)
    → let kd = find is_signing_key idp.key_descriptors in
      let cfg = idp_config_from_descriptor entity_id idp in
      (cfg.certificate_content ≡ cert_of kd) × (cfg.cert_alias ≡ alias_of entity_id kd)
unfolding idp_config_from_descriptor
idp_config_from_descriptor-cert entity_id idp =
    rw (idp_key_loop_lem entity_id _ idp.key_descriptors)
      (split (find is_signing_key idp.key_descriptors))
  where
    split :
        (o : Option KeyDescriptor)
        → ((choose entity_id (idp_base entity_id idp) o).certificate_content ≡ cert_of o)
          × ((choose entity_id (idp_base entity_id idp) o).cert_alias ≡ alias_of entity_id o)
    split none = (refl, refl)
    split (some kd) = (refl, refl)

-- An SP descriptor and an IdP descriptor with the same entity ID and key descriptors get the same
-- signing certificate and alias.
pub sp_config-idp_config_same_cert :
    (entity_id : String) (sp : SpssoDescriptor) (idp : IdpssoDescriptor)
    → sp.key_descriptors ≡ idp.key_descriptors
    → ((sp_config_from_descriptor entity_id sp).certificate_content
        ≡ (idp_config_from_descriptor entity_id idp).certificate_content)
      × ((sp_config_from_descriptor entity_id sp).cert_alias
          ≡ (idp_config_from_descriptor entity_id idp).cert_alias)
sp_config-idp_config_same_cert entity_id sp idp e =
    let of_sp = sp_config_from_descriptor-cert_settings entity_id sp in
    let of_idp = idp_config_from_descriptor-cert entity_id idp in
    (ap (λ t. t.0) of_sp ∙ rw e (sym of_idp.0), ap (λ t. t.1) of_sp ∙ rw e (sym of_idp.1))
