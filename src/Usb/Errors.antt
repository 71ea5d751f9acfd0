-- ===== src/Usb/Errors.antt =====
-- src/lib/DefinitionErrors.h: where a device model is incomplete.
use usbproxy_legacy.Prelude.{ℕ}

pub data DeObjType : Type 0 where
  no_object device_object config_object string_object interface_object : DeObjType
  endpoint_object qualifier_object os_config_object interface_group_object : DeObjType

pub data DeError : Type 0 where
  no_error invalid_descriptor null_object missing_language misplaced_object misplaced_if_num :
      DeError

pub record DefinitionError : Type 0 where
  pub error : DeError
  pub error_detail : ℕ
  pub object_type : DeObjType
  pub config_id : ℕ
  pub interface_num : ℕ
  pub interface_alternate : ℕ
  pub endpoint_num : ℕ

-- The two constructors of the struct; arguments that a call leaves out are 0.
abbrev pub defined : DefinitionError
defined = record {
  error = DeError.no_error;
  error_detail = 0;
  object_type = DeObjType.no_object;
  config_id = 0;
  interface_num = 0;
  interface_alternate = 0;
  endpoint_num = 0;
}

abbrev pub definition_error : DeError → ℕ → DeObjType → ℕ → ℕ → ℕ → ℕ → DefinitionError
definition_error e detail object config ifc alternate ep = record {
  error = e;
  error_detail = detail;
  object_type = object;
  config_id = config;
  interface_num = ifc;
  interface_alternate = alternate;
  endpoint_num = ep;
}

-- `if (rc.error) {return rc;}` before `next`.
abbrev pub or_else : DefinitionError → DefinitionError → DefinitionError
or_else rc next = elim rc.error [ DeError.no_error ↦ next | _ ↦ rc ]
